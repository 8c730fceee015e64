-- ===== src/Examples/Data.antt =====
-- Concrete cameras, contacts, frames and users, on which the runs of the sibling modules go.
use fireme_x.Base.{true, false, none, some, [], ◌∷◌}
use fireme_x.Detect.Geometry.{BBox}
use fireme_x.Detect.Frames.{Label, Detection, FrameResult}
use fireme_x.Config.Types.{
  ClassThresholds, ConfirmConfig, CameraConfig, Channel, ContactConfig, SiteConfig,
}

abbrev pub box : BBox
box = record { x1 = 10; y1 = 10; x2 = 20; y2 = 20 }

abbrev pub flame : Detection
flame = record { label = Label.fire; confidence = 90; box = box }

abbrev pub fire_frame : FrameResult
fire_frame = record {
  camera_id = 1;
  monotonic_ts = 100;
  wall_ts = 1000;
  detections = flame ∷ [];
  is_night = false;
  inference_ms = 5;
  sequence = 1;
}

abbrev pub limits : ClassThresholds
limits = record { fire = 50; smoke = 60 }

abbrev pub confirm : ConfirmConfig
confirm = record {
  frames_required = 1;
  window = 3;
  stability_iou = record { num = 1; den = 2 };
  stability_frames = some 1;
  require_growth = false;
  growth_tolerance = record { num = 1; den = 10 };
  growth_window_seconds = 30;
  min_box_area = 4;
  clear_after_seconds = 20;
}

abbrev pub camera : CameraConfig
camera = record {
  id = 1;
  name = 11;
  rtsp = 12;
  location = 13;
  enabled = true;
  username = none;
  password = none;
  sample_fps = 5;
  thresholds = record { day = limits; night = limits };
  confirm = confirm;
  exclude_zones = [];
  contacts = 7 ∷ [];
  night_start = 1200;
  night_end = 300;
  substream_rtsp = none;
}

abbrev pub contact : ContactConfig
contact = record {
  id = 7;
  name = 70;
  phone = 71;
  channels = Channel.sms ∷ Channel.call ∷ [];
  retries = 1;
  escalate_after_seconds = 30;
}

abbrev pub site : SiteConfig
site = record {
  name = 1;
  timezone = 2;
  cameras = camera ∷ [];
  contacts = contact ∷ [];
  alerting = record {
    confirm_delay_seconds = 5;
    cooldown = 60;
    default_contacts = [];
    webhooks = [];
    voice_template = 1;
    voice_clip_url = none;
    sms_template = 2;
  };
  detection = record {
    backend = none;
    model_path = none;
    device = none;
    batch_size = none;
    batch_timeout_ms = none;
    image_size = none;
    confidence_floor = none;
    shadow_mode = none;
  };
}
