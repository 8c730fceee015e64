-- ===== src/Supervisor/Settings.antt =====
-- firemex/config.py (`Settings`), firemex/supervisor.py (`shadow_mode`, `detector_settings`) and
-- firemex/detect/registry.py (`build_detector`). Of the settings, the fields of the detector and of the
-- alerting switch. What the host answers, whether weights are there and whether a backend loads and
-- starts with them, is a parameter.
use fireme_x.Base.{ℕ, Bool, true, false, not, ◌&&◌, Option, none, some, ◌==◌, if◌then◌else◌}
use fireme_x.Config.Types.{DetectionConfig}

pub record Settings : Type 0 where
  pub twilio_account_sid : Option ℕ
  pub twilio_auth_token : Option ℕ
  pub twilio_from_number : Option ℕ
  pub detector_backend : ℕ
  pub model_path : ℕ
  pub device : ℕ
  pub batch_size : ℕ
  pub batch_timeout_ms : ℕ
  pub image_size : ℕ
  pub shadow_mode : Bool

abbrev is_set : Option ℕ → Bool
is_set none = false
is_set (some _) = true

-- `twilio_configured`; an empty text is `none`
abbrev pub twilio_configured : Settings → Bool
twilio_configured s =
    is_set s.twilio_account_sid && is_set s.twilio_auth_token && is_set s.twilio_from_number

abbrev pub or_else {ℓ} : {A : Type ℓ} → Option A → A → A
or_else none a = a
or_else (some a) b = a

-- `shadow_mode`: the site's opinion, or else the environment's
abbrev pub shadow_mode : Settings → DetectionConfig → Bool
shadow_mode s d = or_else d.shadow_mode s.shadow_mode

-- `detector_settings`: the overrides of the site that are set, over the settings
abbrev pub detector_settings : Settings → DetectionConfig → Settings
detector_settings s d = record s {
  detector_backend = or_else d.backend s.detector_backend;
  model_path = or_else d.model_path s.model_path;
  device = or_else d.device s.device;
  batch_size = or_else d.batch_size s.batch_size;
  batch_timeout_ms = or_else d.batch_timeout_ms s.batch_timeout_ms;
  image_size = or_else d.image_size s.image_size;
}

-- what `_detector_fingerprint` returns
pub record Fingerprint : Type 0 where
  pub detector_backend : ℕ
  pub model_path : ℕ
  pub device : ℕ
  pub image_size : ℕ
  pub batch_size : ℕ
  pub batch_timeout_ms : ℕ

abbrev pub fingerprint_of : Settings → Fingerprint
fingerprint_of s = record {
  detector_backend = s.detector_backend;
  model_path = s.model_path;
  device = s.device;
  image_size = s.image_size;
  batch_size = s.batch_size;
  batch_timeout_ms = s.batch_timeout_ms;
}

-- `_detector_fingerprint`
abbrev pub detector_fingerprint : Settings → DetectionConfig → Fingerprint
detector_fingerprint s d = fingerprint_of (detector_settings s d)

-- the names of the backends
abbrev pub stub : ℕ
stub = 0

abbrev pub ultralytics : ℕ
ultralytics = 1

abbrev pub onnx : ℕ
onnx = 2

-- a detector as it was made: by the simulation, or from weights, with the floor in hundredths
pub data Detector : Type 0 where
  heuristic : Detector
  injected : ℕ → Detector
  loaded : ℕ → ℕ → ℕ → ℕ → ℕ → Detector

-- `confidence_floor: float = 0.15` of both backends
abbrev pub default_floor : ℕ
default_floor = 15

-- the host at the n-th attempt of a reload: whether a path is there, whether a backend takes its weights,
-- and whether the detector's service starts
pub record Host : Type 0 where
  pub exists : ℕ → ℕ → Bool
  pub loads : ℕ → Detector → Bool
  pub starts : ℕ → Detector → Bool

-- `UltralyticsDetector(...)` or `OnnxDetector(...)`
load : Host → ℕ → ℕ → Settings → Option Detector
load host n backend s =
    let d = loaded backend s.model_path s.device s.image_size default_floor in
    if host.loads n d then some d else none

-- `build_detector`: `none` is an exception
unfoldable pub build_detector : Host → ℕ → Settings → Option Detector
unfolding load
build_detector host n s =
    if s.detector_backend == stub
    then some heuristic
    else if not (host.exists n s.model_path)
    then none
    else if s.detector_backend == ultralytics
    then load host n ultralytics s
    else if s.detector_backend == onnx
    then load host n onnx s
    else none
