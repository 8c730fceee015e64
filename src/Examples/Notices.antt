-- ===== src/Examples/Notices.antt =====
-- Runs of the acknowledgement bus, the cooldown and an escalation.
use fireme_x.Base.{
  if◌then◌else◌, ◌==◌, ℕ, ◌+◌, ◌≡◌, refl, true, false, none, some, List, [], ◌∷◌, arith,
}
use fireme_x.Base.Dict.{lookup}
use fireme_x.Notify.Acks.{AckBus, new_bus}
use fireme_x.Notify.Acks.Laws.{IsBus}
use fireme_x.Notify.Cooldown.{Question}
use fireme_x.Notify.Dispatch.Types.{
  DispatchRun, AlertResult, Outcome, RunStatus, Wake, resume, ack, Env, Dispatcher, World,
}
use fireme_x.Config.Types.{Channel}
use fireme_x.Notify.Records.{Tables}
use fireme_x.Notify.Dispatch.Table.{Task, Board}
use fireme_x.Notify.Dispatch.Table.Single.{
  Request, dispatch_request, cancel_request, acknowledge_request, serve_all, live_number,
  serve_all_keeps,
}
use fireme_x.Notify.Dispatch.Escalation.{chain_loop, run}
use fireme_x.Notify.Dispatch.Escalation.Calls.{calls, budget}
use fireme_x.Notify.Dispatch.Escalation.Budget.{EndsAt, chain_loop-budget}
use fireme_x.Notify.Dispatch.Escalation.Shadow.{run_shadow}
use fireme_x.Examples.Data.{contact, site}

abbrev bus : AckBus
bus = new_bus

-- the escalation of incident 3 waits on event 0
abbrev waited : AckBus
waited = record {
  events = (3, 0) ∷ [];
  acked_by = [];
  set_events = (0, false) ∷ [];
  next_event = 1;
}

waited-IsBus : IsBus waited
waited-IsBus = record { known = λ i a e. ground arith; apart = λ i j a e e'. ground arith }

abbrev questions : List Question
questions = (1, 100) ∷ (2, 110) ∷ (1, 120) ∷ (1, 170) ∷ []

-- an environment in which contact 7 acknowledges at the fourth await
abbrev script : ℕ → Wake
script tick = if tick == 4 then resume (ack 3 7 ∷ []) else resume []

abbrev env : Env
env = record {
  script = script;
  clock = λ tick. tick + 1000;
  send = λ channel c tick. some (record {
    channel = channel;
    contact_id = c.id;
    outcome = Outcome.queued;
    provider_id = some tick;
    error = none;
  });
}

abbrev dispatcher : Dispatcher
dispatcher = record {
  site = site;
  has_sms = true;
  has_call = true;
  has_webhook = false;
  shadow_mode = true;
}

abbrev world : World
world = record {
  bus = bus;
  cooldowns = [];
  run = record {
    incident_id = 3;
    camera_id = 1;
    status = RunStatus.shadow;
    attempts = [];
    acknowledged_by = none;
    started_wall = 1000;
    finished_wall = none;
    detail = none;
  };
  tick = 0;
  placed = [];
}

chain_loop-budget_example :
    EndsAt
      (calls world.placed + budget dispatcher (contact ∷ []))
      (chain_loop env dispatcher 3 (contact ∷ []) world)
chain_loop-budget_example = chain_loop-budget env dispatcher 3 (contact ∷ []) world

run_shadow_example : (run env dispatcher 3 1 world).1.placed ≡ world.placed
run_shadow_example = run_shadow env dispatcher 3 1 world refl

-- a call that failed, and one that the provider took
abbrev failed_call : AlertResult
failed_call = record {
  channel = Channel.call;
  contact_id = 7;
  outcome = Outcome.failed;
  provider_id = none;
  error = some 1;
}

abbrev placed_call : AlertResult
placed_call = record failed_call { outcome = Outcome.queued; provider_id = some 8; error = none }

abbrev failing_run : DispatchRun
failing_run = record (world.run) { attempts = failed_call ∷ placed_call ∷ [] }

abbrev acknowledged_run : DispatchRun
acknowledged_run = record (world.run) {
  attempts = placed_call ∷ placed_call ∷ [];
  acknowledged_by = some 7;
}

abbrev tables : Tables
tables = record {
  incidents =
      record { id = 3; alert_status = none; acknowledged_by = none; acknowledged_at = none } ∷ [];
  alerts = [];
}

abbrev live_task : Task
live_task = record { number = 0; is_done = false; is_cancelling = false }

abbrev board : Board
board = record { tasks = (3, live_task) ∷ []; runs = (3, world.run) ∷ []; bus = bus; started = 1 }

abbrev requests : List Request
requests =
    dispatch_request 3 ∷ cancel_request 3 1 50 ∷ dispatch_request 3 ∷ acknowledge_request 3 7 ∷ []

serve_all_keeps_example : live_number (lookup 3 (serve_all requests board).tasks) ≡ some 0
serve_all_keeps_example = serve_all_keeps requests 3 0 board refl
