-- ===== src/Incident/Engine/Filter.antt =====
-- firemex/incident/engine.py: which detections pass `_filter`.
use fireme_x.Base.{◌≤◌, ◌≡◌, ◌≢◌, ◌↔◌, Bool, true, false, arith}
use mathlib.Core.List.{Memᴰ}
use fireme_x.Base.Member.{mem-keep}
use fireme_x.Config.Types.{CameraConfig, for_label, select}
use fireme_x.Detect.Geometry.{area}
use fireme_x.Detect.Frames.{Label, Detection, FrameResult}
use fireme_x.Incident.Zones.{ZoneMask, excludes}
use fireme_x.Incident.Rules.{reject_reason, is_kept, filter}

-- the four rules that a detection has to meet
pub record Passes (c : CameraConfig) (z : ZoneMask) (night : Bool) (d : Detection) : Type 0 where
  pub known : d.label ≢ Label.unknown
  pub confident : for_label (select c.thresholds night) d.label ≤ d.confidence
  pub large : c.confirm.min_box_area ≤ area d.box
  pub allowed : excludes z d.box ≡ false

is_kept_iff :
    (c : CameraConfig) (z : ZoneMask) (night : Bool) (d : Detection)
    → (is_kept c z night d ≡ true) ↔ Passes c z night d
unfolding reject_reason
is_kept_iff c z night d = (λ h. ground arith, λ h. ground arith)

-- A detection is among those of the filtered observation exactly when it is among those of the
-- frame, its label is fire or smoke, its confidence reaches the threshold of its label by day or by
-- night, its box has the minimum area, and no exclusion zone excludes the box.
pub filter_exact :
    (c : CameraConfig) (z : ZoneMask) (r : FrameResult) (d : Detection)
    → Memᴰ d (filter c z r).detections ↔ (Memᴰ d r.detections × Passes c z r.is_night d)
unfolding filter
filter_exact c z r d =
    let both = mem-keep (is_kept c z r.is_night) d r.detections in
    let rules = is_kept_iff c z r.is_night d in
    (λ m. ((both.0 m).0, rules.0 (both.0 m).1), λ h. both.1 (h.0, rules.1 h.1))
