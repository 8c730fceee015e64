-- ===== src/Incident/Types.antt =====
-- firemex/incident/engine.py: the values of the confirmation engine. An event carries the incident as
-- it was when the event was made. (In the program it carries the live object, which the dispatcher
-- reads later, and a snapshot of severity and labels.)
use fireme_x.Base.{
  ℕ, Bool, true, false, ◌&&◌, ◌||◌, Option, none, some, List, [], ◌∷◌, if◌then◌else◌,
}
use fireme_x.Base.Ratio.{Ratio}
use fireme_x.Detect.Geometry.{BBox, union}
use fireme_x.Detect.Frames.{Label, Detection, is_fire, is_smoke}

pub data State : Type 0 where
  idle candidate confirmed : State

abbrev pub is_confirmed : State → Bool
is_confirmed State.confirmed = true
is_confirmed _ = false

pub data Severity : Type 0 where
  warning critical : Severity

abbrev pub is_critical : Severity → Bool
is_critical Severity.critical = true
is_critical Severity.warning = false

pub data Reason : Type 0 where
  below_threshold excluded_zone too_small unknown_label : Reason
  insufficient_persistence not_spatially_stable shrinking : Reason

pub record Observation : Type 0 where
  pub monotonic_ts : ℕ
  pub wall_ts : ℕ
  pub detections : List Detection

-- `Observation.hit`
abbrev pub hit : Observation → Bool
hit o = elim o.detections [ [] ↦ false | _ ∷ _ ↦ true ]

-- the union of boxes, from left to right
abbrev pub union_all : BBox → List Detection → BBox
union_all b [] = b
union_all b (d ∷ ds) = union_all (union b d.box) ds

abbrev envelope_of : List Detection → Option BBox
envelope_of [] = none
envelope_of (d ∷ ds) = some (union_all d.box ds)

-- `Observation.envelope`
abbrev pub envelope : Observation → Option BBox
envelope o = envelope_of o.detections

-- a set of labels, by its members
pub record Labels : Type 0 where
  pub fire : Bool
  pub smoke : Bool
  pub unknown : Bool

abbrev pub no_labels : Labels
no_labels = record { fire = false; smoke = false; unknown = false }

abbrev is_unknown : Label → Bool
is_unknown Label.unknown = true
is_unknown _ = false

abbrev add_label : Label → Labels → Labels
add_label l s = record {
  fire = is_fire l || s.fire;
  smoke = is_smoke l || s.smoke;
  unknown = is_unknown l || s.unknown;
}

-- `{d.label for d in detections}`
abbrev pub labels_of : List Detection → Labels
labels_of [] = no_labels
labels_of (d ∷ ds) = add_label d.label (labels_of ds)

-- `a | b`
abbrev pub join_labels : Labels → Labels → Labels
join_labels a b = record {
  fire = a.fire || b.fire;
  smoke = a.smoke || b.smoke;
  unknown = a.unknown || b.unknown;
}

pub record Incident : Type 0 where
  pub id : ℕ
  pub camera_id : ℕ
  pub opened_monotonic : ℕ
  pub opened_wall : ℕ
  pub severity : Severity
  pub labels : Labels
  pub peak_confidence : ℕ
  pub envelope : Option BBox
  pub frames_confirmed : ℕ
  pub growth_ratio : Ratio
  pub last_hit_monotonic : ℕ
  pub closed_wall : Option ℕ
  pub snapshot_path : Option ℕ
  pub clip_path : Option ℕ

pub data Summary : Type 0 where
  fire_and_smoke fire smoke : Summary

-- `Incident.label_summary`
unfoldable pub label_summary : Incident → Summary
label_summary i =
    if i.labels.fire && i.labels.smoke
    then Summary.fire_and_smoke
    else if i.labels.fire
    then Summary.fire
    else Summary.smoke

pub data EventKind : Type 0 where
  opened escalated closed : EventKind

pub record IncidentEvent : Type 0 where
  pub kind : EventKind
  pub incident : Incident
  pub observation : Observation
  pub severity : Severity
  pub labels : Labels

-- `IncidentEvent.of`
abbrev pub event_of : EventKind → Incident → Observation → IncidentEvent
event_of kind incident observation = record {
  kind = kind;
  incident = incident;
  observation = observation;
  severity = incident.severity;
  labels = incident.labels;
}

pub record Assessment : Type 0 where
  pub confirmed : Bool
  pub hit_frames : ℕ
  pub frames_required : ℕ
  pub cluster_size : ℕ
  pub stability_required : ℕ
  pub growth_ratio : Ratio
  pub rejected : Option Reason
