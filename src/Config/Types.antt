-- ===== src/Config/Types.antt =====
-- firemex/config.py: the records of the configuration. Identifiers and opaque texts (names, URLs,
-- credentials) are only compared or passed on, so they are numbers; confidences, areas and times are
-- whole numbers of one unit each; a factor between 0 and 1 is a ratio.
use fireme_x.Base.{ℕ, Bool, Option, List}
use fireme_x.Base.Ratio.{Ratio}
use fireme_x.Detect.Frames.{Label, is_smoke}
use fireme_x.Base.{if◌then◌else◌}

pub record ClassThresholds : Type 0 where
  pub fire : ℕ
  pub smoke : ℕ

-- `ClassThresholds.for_label`
abbrev pub for_label : ClassThresholds → Label → ℕ
for_label t label = if is_smoke label then t.smoke else t.fire

pub record Thresholds : Type 0 where
  pub day : ClassThresholds
  pub night : ClassThresholds

-- `Thresholds.select`
abbrev pub select : Thresholds → Bool → ClassThresholds
select t is_night = if is_night then t.night else t.day

pub record ConfirmConfig : Type 0 where
  pub frames_required : ℕ
  pub window : ℕ
  pub stability_iou : Ratio
  pub stability_frames : Option ℕ
  pub require_growth : Bool
  pub growth_tolerance : Ratio
  pub growth_window_seconds : ℕ
  pub min_box_area : ℕ
  pub clear_after_seconds : ℕ

pub record Point : Type 0 where
  pub x : ℕ
  pub y : ℕ

abbrev pub Polygon : Type 0
Polygon = List Point

-- `dt.time` as ticks since midnight
pub record CameraConfig : Type 0 where
  pub id : ℕ
  pub name : ℕ
  pub rtsp : ℕ
  pub location : ℕ
  pub enabled : Bool
  pub username : Option ℕ
  pub password : Option ℕ
  pub sample_fps : ℕ
  pub thresholds : Thresholds
  pub confirm : ConfirmConfig
  pub exclude_zones : List Polygon
  pub contacts : List ℕ
  pub night_start : ℕ
  pub night_end : ℕ
  pub substream_rtsp : Option ℕ

pub data Channel : Type 0 where
  call sms : Channel

pub record ContactConfig : Type 0 where
  pub id : ℕ
  pub name : ℕ
  pub phone : ℕ
  pub channels : List Channel
  pub retries : ℕ
  pub escalate_after_seconds : ℕ

pub record AlertingConfig : Type 0 where
  pub confirm_delay_seconds : ℕ
  pub cooldown : ℕ
  pub default_contacts : List ℕ
  pub webhooks : List ℕ
  pub voice_template : ℕ
  pub voice_clip_url : Option ℕ
  pub sms_template : ℕ

pub record DetectionConfig : Type 0 where
  pub backend : Option ℕ
  pub model_path : Option ℕ
  pub device : Option ℕ
  pub batch_size : Option ℕ
  pub batch_timeout_ms : Option ℕ
  pub image_size : Option ℕ
  pub confidence_floor : Option ℕ
  pub shadow_mode : Option Bool

pub record SiteConfig : Type 0 where
  pub name : ℕ
  pub timezone : ℕ
  pub cameras : List CameraConfig
  pub contacts : List ContactConfig
  pub alerting : AlertingConfig
  pub detection : DetectionConfig
