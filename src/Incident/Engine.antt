-- ===== src/Incident/Engine.antt =====
-- firemex/incident/engine.py: `CameraIncidentEngine`, the confirmation state machine of one camera.
-- A method takes the engine and returns the new one; `none` is the failed assertion of
-- `_observe_confirmed`. `_id_factory` draws a random id, so the id of an incident that a frame may
-- open is an argument.
use fireme_x.Base.{
  is_empty, ℕ, ◌+◌, max, Bool, true, false, ◌&&◌, ◌||◌, not, Option, none, some, List, [], ◌∷◌, leb,
  if◌then◌else◌, keep, last?,
}
use fireme_x.Base.Deque.{append}
use fireme_x.Config.Types.{ConfirmConfig, CameraConfig}
use fireme_x.Detect.Geometry.{BBox, union}
use fireme_x.Detect.Frames.{Detection, FrameResult}
use fireme_x.Incident.Zones.{ZoneMask, new_mask}
use fireme_x.Incident.Types.{
  State, idle, candidate, confirmed, is_confirmed, Severity, is_critical, Observation, hit,
  envelope, Labels, labels_of, join_labels, Incident, EventKind, IncidentEvent, event_of,
  Assessment,
}
use fireme_x.Incident.Rules.{
  filter, record_area, growth_ratio, severity_of, window_envelope, assess, join_envelope,
}
pub mod Filter
pub mod Invariant
pub mod Confirmation
pub mod Opened
pub mod Calls
pub mod Runs

-- `window_limit` is the `maxlen` of the window, fixed when the engine is made
pub record Engine : Type 0 where
  pub camera : CameraConfig
  pub zones : ZoneMask
  pub window_limit : ℕ
  pub window : List Observation
  pub area_history : List (ℕ × ℕ)
  pub state : State
  pub incident : Option Incident
  pub last_assessment : Option Assessment
  pub last_hit_wall : Option ℕ
  pub frames_seen : ℕ
  pub suppress_until_clear : Bool

-- `__init__`
unfoldable pub new_engine : CameraConfig → Engine
new_engine camera = record {
  camera = camera;
  zones = new_mask camera.exclude_zones;
  window_limit = camera.confirm.window;
  window = [];
  area_history = [];
  state = State.idle;
  incident = none;
  last_assessment = none;
  last_hit_wall = none;
  frames_seen = 0;
  suppress_until_clear = false;
}

window_labels : List Observation → Labels → Labels
window_labels [] s = s
window_labels (o ∷ os) s = window_labels os (join_labels s (labels_of o.detections))

-- `max((d.confidence for d in detections), default=k)`
abbrev peak_of : List Detection → ℕ → ℕ
peak_of [] k = k
peak_of (d ∷ ds) k = peak_of ds (max k d.confidence)

window_peak : List Observation → ℕ → ℕ
window_peak [] k = k
window_peak (o ∷ os) k = window_peak os (peak_of o.detections k)

new_incident : ℕ → Engine → Observation → Assessment → Incident
unfolding window_labels window_peak
new_incident id e o a =
    let labels = window_labels e.window (labels_of o.detections) in
    let growth = growth_ratio e.area_history in
    record {
      id = id;
      camera_id = e.camera.id;
      opened_monotonic = o.monotonic_ts;
      opened_wall = o.wall_ts;
      severity = severity_of labels growth;
      labels = labels;
      peak_confidence = window_peak e.window 0;
      envelope = window_envelope e.window;
      frames_confirmed = a.hit_frames;
      growth_ratio = growth;
      last_hit_monotonic = o.monotonic_ts;
      closed_wall = none;
      snapshot_path = none;
      clip_path = none;
    }

-- `_open`
unfoldable pub open_incident : ℕ → Engine → Observation → Assessment → Engine × List IncidentEvent
unfolding new_incident
open_incident id e o a =
    let incident = new_incident id e o a in
    (
      record e { incident = some incident; state = State.confirmed },
      event_of EventKind.opened incident o ∷ [],
    )

-- `observation or (self._window[-1] if self._window else None)`
abbrev pub last_seen : Option Observation → List Observation → Option Observation
last_seen none window = last? window
last_seen (some o) window = some o

abbrev closed_at : Option Observation → Incident → ℕ
closed_at none i = i.opened_wall
closed_at (some o) i = o.wall_ts

abbrev state_after : Option Observation → State
state_after none = State.idle
state_after (some o) = if hit o then State.candidate else State.idle

abbrev closing_observation : Option Observation → Incident → Observation
closing_observation none i = record { monotonic_ts = 0; wall_ts = i.opened_wall; detections = [] }
closing_observation (some o) i = o

close_open : Engine → Incident → Option Observation → Engine × Option IncidentEvent
close_open e i last =
    let incident = record i { closed_wall = some (closed_at last i) } in
    (
      record e { incident = none; state = state_after last },
      some (event_of EventKind.closed incident (closing_observation last i)),
    )

-- `_close`
unfoldable pub close_incident : Engine → Option Observation → Engine × Option IncidentEvent
unfolding close_open
close_incident e o = elim e.incident [
  | none ↦ (e, none)
  | some i ↦ close_open e i (last_seen o e.window)
]

-- `cancel`
unfoldable pub cancel : Engine → Engine × Option IncidentEvent
unfolding close_incident
cancel e = elim e.incident [
  | none ↦ (e, none)
  | some i ↦ close_incident (record e { suppress_until_clear = true }) none
]

-- `_observe_unconfirmed`
unfoldable pub observe_unconfirmed : ℕ → Engine → Observation → Engine × List IncidentEvent
unfolding open_incident
observe_unconfirmed id e o =
    let hits = keep hit e.window in
    let quiet = is_empty hits in
    let a = assess e.camera.confirm e.area_history hits in
    let e' = record e {
      state = if quiet then State.idle else State.candidate;
      suppress_until_clear = if quiet then false else e.suppress_until_clear;
      last_assessment = some a;
    } in
    if not a.confirmed || e'.suppress_until_clear then (e', []) else open_incident id e' o a

-- the incident after a hit, before its severity is looked at again
merge_hit : Engine → Incident → Observation → Incident
merge_hit e i o = record i {
  last_hit_monotonic = o.monotonic_ts;
  labels = join_labels i.labels (labels_of o.detections);
  peak_confidence = peak_of o.detections i.peak_confidence;
  envelope = join_envelope i.envelope (envelope o);
  growth_ratio = growth_ratio e.area_history;
}

escalates : Incident → Bool
escalates i = is_critical (severity_of i.labels i.growth_ratio) && not (is_critical i.severity)

unfoldable pub observe_hit : Engine → Incident → Observation → Engine × List IncidentEvent
unfolding merge_hit escalates
observe_hit e i o =
    let merged = merge_hit e i o in
    let critical = record merged { severity = Severity.critical } in
    if escalates merged
    then (record e { incident = some critical }, event_of EventKind.escalated critical o ∷ [])
    else (record e { incident = some merged }, [])

abbrev pub listed : Option IncidentEvent → List IncidentEvent
listed none = []
listed (some event) = event ∷ []

unfoldable pub observe_quiet : Engine → Incident → Observation → Engine × List IncidentEvent
unfolding close_incident
observe_quiet e i o =
    if leb (i.last_hit_monotonic + e.camera.confirm.clear_after_seconds) o.monotonic_ts
    then (let (e', event) = close_incident e (some o) in (e', listed event))
    else (e, [])

-- `_observe_confirmed`
unfoldable pub observe_confirmed : Engine → Observation → Option (Engine × List IncidentEvent)
observe_confirmed e o = elim e.incident [
  | none ↦ none
  | some i ↦ some (if hit o then observe_hit e i o else observe_quiet e i o)
]

-- the bookkeeping that `observe` does before it looks at the state
unfoldable pub take_in : Engine → Observation → Engine
unfolding append record_area
take_in e o = record e {
  frames_seen = e.frames_seen + 1;
  window = append e.window_limit e.window o;
  area_history = record_area e.camera o e.area_history;
  last_hit_wall = if hit o then some o.wall_ts else e.last_hit_wall;
}

observe_taken : ℕ → Engine → Observation → Option (Engine × List IncidentEvent)
observe_taken id e o =
    if is_confirmed e.state then observe_confirmed e o else some (observe_unconfirmed id e o)

-- `observe`
unfoldable pub observe : ℕ → Engine → FrameResult → Option (Engine × List IncidentEvent)
unfolding observe_taken
observe id e r = let o = filter e.camera e.zones r in observe_taken id (take_in e o) o
