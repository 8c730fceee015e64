-- ===== src/Supervisor/Cancellation.antt =====
-- firemex/supervisor.py: what a cancellation by the operator stops.
use fireme_x.Base.{
  ℕ, ◌≤◌, ◌≡◌, true, false, none, some, [], ◌∷◌, arith, is_some, Bool-cases, inl, inr,
}
use fireme_x.Base.Dict.{lookup, lookup-insert_self}
use fireme_x.Detect.Frames.{FrameResult}
use fireme_x.Incident.Engine.{Engine, observe, cancel}
use fireme_x.Incident.Engine.Invariant.{IsEngine, cancel-Reports, cancel_open}
use fireme_x.Incident.Engine.Confirmation.{incident_after, observe-Suppressed}
use fireme_x.Incident.Fleet.{Fleet, has_incident}
use fireme_x.Notify.Dispatch.Table.{Task}
use fireme_x.Notify.Dispatch.Table.Single.{cancel_run-task}
use fireme_x.Supervisor.{Supervisor, locate, cancel_engine, cancel_incident, cancel_dispatch}

-- the engine that is located has that incident open
locate-open :
    (i k : ℕ) (f : Fleet) (e : Engine) → locate i f ≡ some (k, e) → is_some e.incident ≡ true
unfolding locate has_incident
locate-open i k [] e h = absurd (ground arith)
locate-open i k ((j, e') ∷ f) e h = elim (Bool-cases (has_incident i e'.incident)) [
  | inl mine ↦ ground arith
  | inr other ↦ locate-open i k f e (rw other at h)
]

-- Where an engine has the incident open and asks for at least one frame, the operator's cancellation is
-- accepted; the engine has no incident after it, and opens none at the next frame, whatever that shows;
-- and the incident's escalation, if it is live and there is a dispatcher, is asked to stop.
pub cancel_incident_stops :
    (i why now k : ℕ) (e : Engine) (s : Supervisor)
    → IsEngine e
    → 1 ≤ e.camera.confirm.frames_required
    → locate i s.engine ≡ some (k, e)
    → let (known, s') = cancel_incident i why now s in
      (known ≡ true)
      × (lookup k s'.engine ≡ some (cancel e).0)
      × ((cancel e).0.incident ≡ none)
      × ((id : ℕ) (r : FrameResult) → incident_after (observe id (cancel e).0 r) ≡ none)
      × ((t : Task)
          → s.has_dispatcher ≡ true
          → lookup i s.board.tasks ≡ some t
          → t.is_done ≡ false
          → lookup i s'.board.tasks ≡ some (record t { is_cancelling = true }))
unfolding cancel_incident cancel_engine cancel_dispatch
cancel_incident_stops i why now k e s h one found =
    let after = cancel-Reports e h in
    let opened = cancel_open e (locate-open i k s.engine e found) in
    (
      ground (arith, found, opened.2),
      rw found (lookup-insert_self k (cancel e).0 s.engine),
      after.1,
      λ id r. (observe-Suppressed id (cancel e).0 r after.0 (rw (opened.1) one) opened.0).0,
      λ t here there live. rw here (cancel_run-task i why now s.board t there live).1,
    )
