-- ===== src/Detect/Frames.antt =====
-- firemex/detect/base.py: labels, detections and the results that a detector returns for one frame.
-- Confidence is in whole units of one scale, time in whole ticks of one clock.
use fireme_x.Base.{ℕ, Bool, true, false, List}
use fireme_x.Detect.Geometry.{BBox}

-- "fire", "smoke", or any other text
pub data Label : Type 0 where
  fire smoke unknown : Label

abbrev pub is_fire : Label → Bool
is_fire Label.fire = true
is_fire _ = false

abbrev pub is_smoke : Label → Bool
is_smoke Label.smoke = true
is_smoke _ = false

pub record Detection : Type 0 where
  pub label : Label
  pub confidence : ℕ
  pub box : BBox

-- the fields of a frame that outlive the detector; the image is the detector's alone
pub record Frame : Type 0 where
  pub camera_id : ℕ
  pub monotonic_ts : ℕ
  pub wall_ts : ℕ
  pub is_night : Bool
  pub sequence : ℕ

pub record FrameResult : Type 0 where
  pub camera_id : ℕ
  pub monotonic_ts : ℕ
  pub wall_ts : ℕ
  pub detections : List Detection
  pub is_night : Bool
  pub inference_ms : ℕ
  pub sequence : ℕ
