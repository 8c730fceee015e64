-- ===== src/Notify/Dispatch/Types.antt =====
-- firemex/notify/dispatcher.py and firemex/notify/base.py: the values of an escalation run, and the
-- world in which it runs. At each `await` the event loop runs other tasks: acknowledgements and
-- `forget`s reach the bus, or the task is cancelled. What they do at the n-th await is the script's
-- n-th entry. `placed` logs each use of a channel, the newest first.
use fireme_x.Base.{ℕ, Bool, true, false, ◌&&◌, Option, some, List, [], ◌∷◌, ◌==◌, if◌then◌else◌}
use fireme_x.Base.Dict.{Dict}
use fireme_x.Config.Types.{Channel, ContactConfig, SiteConfig}
use fireme_x.Notify.Acks.{AckBus, acknowledge, forget}

pub data Outcome : Type 0 where
  queued failed skipped : Outcome

abbrev pub is_failed : Outcome → Bool
is_failed Outcome.failed = true
is_failed _ = false

pub record AlertResult : Type 0 where
  pub channel : Channel
  pub contact_id : ℕ
  pub outcome : Outcome
  pub provider_id : Option ℕ
  pub error : Option ℕ

pub data RunStatus : Type 0 where
  shadow suppressed cancelled acknowledged exhausted no_contacts failed : RunStatus

pub data Detail : Type 0 where
  no_calls_placed within_cooldown no_contacts_configured chain_exhausted exception : Detail
  reason : ℕ → Detail

pub record DispatchRun : Type 0 where
  pub incident_id : ℕ
  pub camera_id : ℕ
  pub status : RunStatus
  pub attempts : List AlertResult
  pub acknowledged_by : Option ℕ
  pub started_wall : ℕ
  pub finished_wall : Option ℕ
  pub detail : Option Detail

pub data Action : Type 0 where
  ack : ℕ → ℕ → Action
  forgotten : ℕ → Action

-- what an `await` wakes to; a cancellation is the operator's, with a reason, or a shutdown's
pub data Wake : Type 0 where
  resume : List Action → Wake
  cancel : List Action → Option ℕ → Wake

-- what the program does not decide: the interleaving, the wall clock, and what each channel's provider
-- answers (`none` is an exception)
pub record Env : Type 0 where
  pub script : ℕ → Wake
  pub clock : ℕ → ℕ
  pub send : Channel → ContactConfig → ℕ → Option AlertResult

-- the fields of `AlertDispatcher` that a run reads
pub record Dispatcher : Type 0 where
  pub site : SiteConfig
  pub has_sms : Bool
  pub has_call : Bool
  pub has_webhook : Bool
  pub shadow_mode : Bool

pub record World : Type 0 where
  pub bus : AckBus
  pub cooldowns : Dict ℕ
  pub run : DispatchRun
  pub tick : ℕ
  pub placed : List (Channel × ℕ)

-- `AlertDispatcher.acknowledge`: the bus decides, and the run of that incident notes the contact
note_ack : ℕ → ℕ → Bool → DispatchRun → DispatchRun
note_ack i contact accepted r =
    if accepted && (i == r.incident_id) then record r { acknowledged_by = some contact } else r

unfoldable pub apply_action : Action → World → World
unfolding note_ack
apply_action (ack i contact) w =
    let (accepted, bus) = acknowledge i contact w.bus in
    record w { bus = bus; run = note_ack i contact accepted w.run }
apply_action (forgotten i) w = record w { bus = forget i w.bus }

unfoldable pub apply_actions : List Action → World → World
apply_actions [] w = w
apply_actions (a ∷ actions) w = apply_actions actions (apply_action a w)
