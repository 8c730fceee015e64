-- ===== src/Incident/Engine/Opened.antt =====
-- firemex/incident/engine.py: what `observe` reports when it opens an incident.
use fireme_x.Base.{
  ℕ, ◌≡◌, refl, Bool, true, false, not, ◌||◌, Option, none, some, List, [], ◌∷◌, arith, is_some,
  is_empty, keep, if◌then◌else◌,
}
use fireme_x.Detect.Frames.{FrameResult}
use fireme_x.Incident.Types.{
  Observation, IncidentEvent, EventKind, Assessment, State, hit, event_of, is_confirmed,
}
use fireme_x.Incident.Engine.{
  Engine, take_in, filter, observe, observe_taken, observe_unconfirmed, open_incident, new_incident,
}
use fireme_x.Incident.Rules.{assess}
use fireme_x.Incident.Engine.Invariant.{IsEngine}
use fireme_x.Incident.Engine.Confirmation.{incident_after}

-- one event, of the incident that is open now
pub record Opens (id camera_id : ℕ) (o : Option (Engine × List IncidentEvent)) : Type 0 where
  pub engine : Engine
  pub event : IncidentEvent
  pub returned : o ≡ some (engine, event ∷ [])
  pub kind : event.kind ≡ EventKind.opened
  pub of_id : event.incident.id ≡ id
  pub of_camera : event.incident.camera_id ≡ camera_id
  pub is_open : engine.incident ≡ some event.incident

open_incident-Opens :
    (id : ℕ) (e : Engine) (o : Observation) (a : Assessment)
    → Opens id e.camera.id (some (open_incident id e o a))
unfolding open_incident new_incident
open_incident-Opens id e o a = record {
  engine = (open_incident id e o a).0;
  event = event_of EventKind.opened (new_incident id e o a) o;
  returned = refl;
  kind = refl;
  of_id = refl;
  of_camera = refl;
  is_open = refl;
}

if-Opens :
    (id camera_id : ℕ) (b : Bool) (x y : Engine × List IncidentEvent)
    → x.0.incident ≡ none
    → Opens id camera_id (some y)
    → is_some (incident_after (some (if b then x else y))) ≡ true
    → Opens id camera_id (some (if b then x else y))
if-Opens id camera_id true x y n k h = absurd (cc (rw n at h))
if-Opens id camera_id false x y n k h = k

unconfirmed-Opens :
    (id : ℕ) (e : Engine) (o : Observation)
    → e.incident ≡ none
    → is_some (incident_after (some (observe_unconfirmed id e o))) ≡ true
    → Opens id e.camera.id (some (observe_unconfirmed id e o))
unfolding observe_unconfirmed
unconfirmed-Opens id e o n h =
    let hits : List Observation = keep hit e.window in
    let quiet : Bool = is_empty hits in
    let a : Assessment = assess e.camera.confirm e.area_history hits in
    let e' : Engine = record e {
      state = if quiet then State.idle else State.candidate;
      suppress_until_clear = if quiet then false else e.suppress_until_clear;
      last_assessment = some a;
    } in
    if-Opens id e.camera.id (not a.confirmed || e'.suppress_until_clear) (e', [])
      (open_incident id e' o a) n (open_incident-Opens id e' o a) h

-- Where no incident was open and one is open after a frame, the frame's one event is its opening, under
-- the id that was drawn and the camera's.
pub observe-Opens :
    (id : ℕ) (e : Engine) (r : FrameResult)
    → IsEngine e
    → e.incident ≡ none
    → is_some (incident_after (observe id e r)) ≡ true
    → Opens id e.camera.id (observe id e r)
unfolding observe observe_taken take_in
observe-Opens id e r h n opened =
    let o = filter e.camera e.zones r in
    let calm : is_confirmed e.state ≡ false = ground (arith, h.confirmed_open) in
    rw calm (unconfirmed-Opens id (take_in e o) o n (rw calm at opened))
