-- ===== src/Incident/Rules.antt =====
-- firemex/incident/engine.py: the rules of `CameraIncidentEngine` that read the window and change
-- nothing: `_filter`, `_record_area`, `_growth_ratio`, `_area_not_shrinking`, `_severity`,
-- `_window_envelope` and `_assess`. A difference of times that the source compares with a bound is
-- written as a sum. The metrics that count what was suppressed are left out.
use fireme_x.Base.{
  ℕ, ◌+◌, ◌-◌, ◌/◌, max, Bool, true, false, ◌&&◌, ◌||◌, not, Option, none, some, List, [], ◌∷◌,
  ◌++◌, map, ltb, leb, ◌==◌, if◌then◌else◌, length, take, drop, keep,
}
use fireme_x.Base.Deque.{drop_while}
use fireme_x.Base.Ratio.{Ratio, ge_ratio, div_ratio, mul_ratio, fmean}
use fireme_x.Config.Types.{ConfirmConfig, CameraConfig, for_label, select}
use fireme_x.Detect.Geometry.{BBox, area, union}
use fireme_x.Detect.Frames.{Label, Detection, FrameResult}
use fireme_x.Incident.Zones.{ZoneMask, excludes}
use fireme_x.Incident.Area.{union_area, largest_stable_cluster}
use fireme_x.Incident.Types.{
  Reason, below_threshold, excluded_zone, too_small, unknown_label, insufficient_persistence,
  not_spatially_stable, shrinking, Severity, Observation, hit, envelope, Labels, Assessment,
}

is_known : Label → Bool
is_known Label.fire = true
is_known Label.smoke = true
is_known Label.unknown = false

-- the `if`/`elif` ladder of `_filter`: why a detection is dropped, or `none`
unfoldable pub reject_reason : CameraConfig → ZoneMask → Bool → Detection → Option Reason
unfolding is_known
reject_reason c zones is_night d =
    if not (is_known d.label)
    then some unknown_label
    else if ltb d.confidence (for_label (select c.thresholds is_night) d.label)
    then some below_threshold
    else if ltb (area d.box) c.confirm.min_box_area
    then some too_small
    else if excludes zones d.box
    then some excluded_zone
    else none

abbrev pub is_kept : CameraConfig → ZoneMask → Bool → Detection → Bool
is_kept c zones is_night d = elim (reject_reason c zones is_night d) [
  | none ↦ true
  | some _ ↦ false
]

-- `_filter`
unfoldable pub filter : CameraConfig → ZoneMask → FrameResult → Observation
unfolding reject_reason
filter c zones r = record {
  monotonic_ts = r.monotonic_ts;
  wall_ts = r.wall_ts;
  detections = keep (is_kept c zones r.is_night) r.detections;
}

-- `Observation.area`
abbrev pub observed_area : Observation → ℕ
observed_area o = union_area (map (λ (d : Detection). d.box) o.detections)

-- `_record_area`: the new sample, then the samples older than the growth window leave
unfoldable pub record_area : CameraConfig → Observation → List (ℕ × ℕ) → List (ℕ × ℕ)
record_area c o history =
    drop_while (λ s. ltb (s.0 + c.confirm.growth_window_seconds) o.monotonic_ts)
      (history ++ (o.monotonic_ts, if hit o then observed_area o else 0) ∷ [])

positive_areas : List (ℕ × ℕ) → List ℕ
positive_areas [] = []
positive_areas ((_, a) ∷ s) = let rest = positive_areas s in if ltb 0 a then a ∷ rest else rest

abbrev one : Ratio
one = record { num = 1; den = 1 }

-- `late / early`, unless `early <= 0`
abbrev trend : Ratio → Ratio → Ratio
trend early late = if leb early.num 0 then one else div_ratio late early

growth_of : List ℕ → Ratio
growth_of samples =
    if ltb (length samples) 6
    then one
    else (let third = max 2 (length samples / 3) in
        trend (fmean (take third samples)) (fmean (drop (length samples - third) samples)))

-- `_growth_ratio`
unfoldable pub growth_ratio : List (ℕ × ℕ) → Ratio
unfolding positive_areas growth_of
growth_ratio history = growth_of (positive_areas history)

-- `1.0 - tolerance`, where the configuration has `tolerance <= 1`
abbrev pub one_minus : Ratio → Ratio
one_minus r = record { num = r.den - r.num; den = r.den }

abbrev halves_hold : ConfirmConfig → Ratio → Ratio → Bool
halves_hold c first second =
    leb first.num 0 || ge_ratio second (mul_ratio first (one_minus c.growth_tolerance))

not_shrinking : ConfirmConfig → List ℕ → Bool
not_shrinking c areas =
    if ltb (length areas) 4
    then true
    else (let split = length areas / 2 in
        halves_hold c (fmean (take split areas)) (fmean (drop split areas)))

-- `_area_not_shrinking`
unfoldable pub area_not_shrinking : ConfirmConfig → List Observation → Bool
unfolding not_shrinking
area_not_shrinking c hits = not_shrinking c (map observed_area hits)

-- `_severity`; 1.6 is 8/5
unfoldable pub severity_of : Labels → Ratio → Severity
severity_of labels growth =
    if labels.fire
    then Severity.critical
    else if ge_ratio growth (record { num = 8; den = 5 })
    then Severity.critical
    else Severity.warning

abbrev pub join_envelope : Option BBox → Option BBox → Option BBox
join_envelope none b = b
join_envelope (some a) none = some a
join_envelope (some a) (some b) = some (union a b)

envelope_from : Option BBox → List Observation → Option BBox
envelope_from e [] = e
envelope_from e (o ∷ os) = envelope_from (join_envelope e (envelope o)) os

-- `_window_envelope`
unfoldable pub window_envelope : List Observation → Option BBox
unfolding envelope_from
window_envelope window = envelope_from none window

abbrev cons_box : Option BBox → List BBox → List BBox
cons_box none bs = bs
cons_box (some b) bs = b ∷ bs

-- `[box for box in (obs.envelope for obs in hits) if box is not None]`
unfoldable pub envelopes : List Observation → List BBox
envelopes [] = []
envelopes (o ∷ os) = cons_box (envelope o) (envelopes os)

-- `confirm.stability_frames or required`
abbrev pub stability_required : ConfirmConfig → ℕ
stability_required c = elim c.stability_frames [
  | none ↦ c.frames_required
  | some n ↦ if n == 0 then c.frames_required else n
]

assessed : ConfirmConfig → List Observation → Ratio → ℕ → Option Reason → Assessment
assessed c hits growth cluster rejected = record {
  confirmed = elim rejected [ none ↦ true | some _ ↦ false ];
  hit_frames = length hits;
  frames_required = c.frames_required;
  cluster_size = cluster;
  stability_required = stability_required c;
  growth_ratio = growth;
  rejected = rejected;
}

-- `_assess`
unfoldable pub assess : ConfirmConfig → List (ℕ × ℕ) → List Observation → Assessment
unfolding assessed
assess c history hits =
    let growth = growth_ratio history in
    let cluster = largest_stable_cluster (envelopes hits) c.stability_iou in
    if ltb (length hits) c.frames_required
    then assessed c hits growth 0 (some insufficient_persistence)
    else if ltb cluster (stability_required c)
    then assessed c hits growth cluster (some not_spatially_stable)
    else if c.require_growth && not (area_not_shrinking c hits)
    then assessed c hits growth cluster (some shrinking)
    else assessed c hits growth cluster none
