-- ===== src/Notify/Dispatch/Escalation.antt =====
-- firemex/notify/dispatcher.py: the escalation run, from `_try_contact` up to `run`. The rendered message
-- and the latency metric of the first call are left out, and the wait's timeout is the environment's: an
-- acknowledgement that the script brings during the wait is one that came in time.
use fireme_x.Base.{
  ◌&&◌, ◌++◌, ℕ, zero, suc, ◌+◌, Bool, true, false, not, Option, none, some, List, [], ◌∷◌, ltb,
  if◌then◌else◌, any, is_empty,
}
use fireme_x.Config.Types.{Channel, ContactConfig, SiteConfig, CameraConfig, AlertingConfig}
use fireme_x.Config.Site.{escalation_chain}
use fireme_x.Incident.Types.{Incident}
use fireme_x.Notify.Acks.{is_acknowledged, acknowledged_by, event_of, is_set, AckBus}
use fireme_x.Notify.Cooldown.{should_alert}
use fireme_x.Base.Dict.{Dict}
use fireme_x.Notify.Dispatch.Types.{
  AlertResult, Outcome, is_failed, RunStatus, DispatchRun, Detail, no_calls_placed, within_cooldown,
  no_contacts_configured, chain_exhausted, exception, Env, Dispatcher, World,
}
use fireme_x.Notify.Dispatch.Monad.{
  Result, ok, stopped, raised, Async, ◌>>=◌, ◌>>◌, pure, gets, modify, modify_run, pause,
}
pub mod Calls
pub mod Budget
pub mod Shadow

abbrev is_sms : Channel → Bool
is_sms Channel.sms = true
is_sms Channel.call = false

abbrev pub is_call : Channel → Bool
is_call Channel.call = true
is_call Channel.sms = false

abbrev pub texts : ContactConfig → Bool
texts c = any is_sms c.channels

abbrev pub takes_calls : ContactConfig → Bool
takes_calls c = any is_call c.channels

abbrev or_contact : Option ℕ → ℕ → ℕ
or_contact none contact = contact
or_contact (some c) contact = c

abbrev or_old : Option Detail → Option Detail → Option Detail
or_old none old = old
or_old (some new) old = some new

or_raise : Option AlertResult → Async AlertResult
or_raise none w = (raised, w)
or_raise (some r) w = (ok r, w)

-- what the handler of CancelledError notes
abbrev cancelled_world : Env → World → World
cancelled_world env w = record w {
  run = record (w.run) { status = RunStatus.cancelled; finished_wall = some (env.clock w.tick) };
}

-- what the handler of any other exception notes
abbrev failed_world : Env → World → World
failed_world env w = record w {
  run = record (w.run) {
    status = RunStatus.failed;
    detail = some exception;
    finished_wall = some (env.clock w.tick);
  };
}

module _ (env : Env) (d : Dispatcher) (incident : ℕ) where
  -- `_publish`: the exceptions of the callback are caught, its awaits are not
  abbrev pub publish : Async (Unit {0})
  publish = pause env

  -- `await channel.send(...)`
  unfoldable pub send_on : Channel → ContactConfig → Async AlertResult
  unfolding or_raise
  send_on channel contact w =
      (do
        modify (λ w. record w { placed = (channel, contact.id) ∷ w.placed })
        pause env
        or_raise (env.send channel contact w.tick))
        w

  -- `run.attempts.append(...)`, `await self._publish(run)`
  unfoldable pub record_attempt : AlertResult → Async (Unit {0})
  record_attempt r = do
    modify_run (λ run. record run { attempts = run.attempts ++ r ∷ [] })
    publish

  -- the event is looked up before the wait, and it is that object which is waited on
  unfoldable pub wait_on : ℕ → Async Bool
  wait_on a = do pause env; gets (λ w. is_set a w.bus)

  -- `AckBus.wait`
  unfoldable pub wait : Async Bool
  unfolding wait_on
  wait w =
      if is_acknowledged incident w.bus
      then (ok true, w)
      else (let (a, bus) = event_of incident w.bus in wait_on a (record w { bus = bus }))

  -- the rest of the loop body once the call is recorded: a failed call is not waited for
  after_call : AlertResult → Async Bool → Async Bool
  after_call r rest =
      if is_failed r.outcome then rest else (do acked ← wait; if acked then pure true else rest)

  -- `for attempt in range(contact.retries + 1)`, by the attempts left
  unfoldable pub call_loop : ContactConfig → ℕ → Async Bool
  unfolding after_call
  call_loop contact zero = gets (λ w. is_acknowledged incident w.bus)
  call_loop contact (suc left) =
      let rest = call_loop contact left in
      (do r ← send_on Channel.call contact; record_attempt r; after_call r rest)

  text_first : ContactConfig → Async (Unit {0})
  text_first contact =
      if texts contact && d.has_sms
      then (do r ← send_on Channel.sms contact; record_attempt r)
      else pure tt

  -- the calls of `_try_contact`, after its text
  unfoldable pub call_contact : ContactConfig → Async Bool
  call_contact contact =
      if not (takes_calls contact)
      then gets (λ w. is_acknowledged incident w.bus)
      else if not d.has_call
      then pure false
      else call_loop contact (contact.retries + 1)

  -- `_try_contact`
  unfoldable pub try_contact : ContactConfig → Async Bool
  unfolding text_first
  try_contact contact = do text_first contact; call_contact contact

  -- `_finish`, with what the run ends on
  unfoldable pub finish : RunStatus → Option Detail → Async (Unit {0})
  finish status detail = do
    modify_run (λ run. record run { status = status; detail = or_old detail run.detail })
    modify (λ w. record w { run = record (w.run) { finished_wall = some (env.clock w.tick) } })
    publish

  finish_acknowledged : ContactConfig → Async (Unit {0})
  finish_acknowledged contact = do
    modify (λ w. record w {
      run = record (w.run) {
        acknowledged_by = some (or_contact (acknowledged_by incident w.bus) contact.id);
      };
    })
    finish RunStatus.acknowledged none

  -- the loop over the chain
  unfoldable pub chain_loop : List ContactConfig → Async (Unit {0})
  unfolding finish_acknowledged
  chain_loop [] = finish RunStatus.exhausted (some chain_exhausted)
  chain_loop (c ∷ cs) =
      let rest = chain_loop cs in
      (do acked ← try_contact c; if acked then finish_acknowledged c else rest)

  -- the chain, once an alert is allowed
  call_chain : List ContactConfig → Async (Unit {0})
  call_chain [] = finish RunStatus.no_contacts (some no_contacts_configured)
  call_chain (c ∷ cs) = do
    if ltb 0 d.site.alerting.confirm_delay_seconds then (do publish; pause env) else pure tt
    chain_loop (c ∷ cs)

  -- `await self.cooldowns.should_alert(...)`, of the store in memory, which does not suspend
  ask_cooldown : ℕ → Async Bool
  ask_cooldown camera w =
      let (allowed, seen) =
        should_alert camera (env.clock w.tick) d.site.alerting.cooldown w.cooldowns in
      (ok allowed, record w { cooldowns = seen })

  -- `_execute` after shadow mode: the cooldown, then the chain
  unfoldable pub live : ℕ → Async (Unit {0})
  unfolding call_chain ask_cooldown
  live camera = do
    allowed ← ask_cooldown camera
    if allowed
        then call_chain (escalation_chain d.site camera)
        else finish RunStatus.suppressed (some within_cooldown)

  -- `_execute`; `broadcast` catches the exceptions of every URL
  unfoldable pub execute : ℕ → Async (Unit {0})
  execute camera = do
    if d.has_webhook then pause env else pure tt
    if d.shadow_mode then finish RunStatus.shadow (some no_calls_placed) else live camera

  -- the handlers of `run`: a cancellation is raised again, an exception ends the run as failed
  handle : Result (Unit {0}) × World → Result (Unit {0}) × World
  handle (ok _, w) = (ok tt, w)
  handle (stopped, w) = (publish >> (λ w. (stopped, w))) (cancelled_world env w)
  handle (raised, w) = publish (failed_world env w)

  -- `run`: a new record, the execution, the handlers
  unfoldable pub run : ℕ → Async (Unit {0})
  unfolding handle
  run camera w = handle (
      execute camera (record w {
        run = record {
          incident_id = incident;
          camera_id = camera;
          status = RunStatus.shadow;
          attempts = [];
          acknowledged_by = none;
          started_wall = env.clock w.tick;
          finished_wall = none;
          detail = none;
        };
      }))
