-- ===== src/Supervisor/Pipeline.antt =====
-- firemex/supervisor.py: the parts that `start`, `reload_config` and `_restart_inference` set up: the
-- detector's service, the dispatcher's settings, the engines and the cameras' workers. The site that
-- `load_site_config` reads is a parameter, and so is what the host answers. An exception is a raised
-- flag beside the state that it leaves. What is published and logged is left out.
use fireme_x.Base.{
  ℕ, ◌*◌, ◌/◌, ◌≡◌, Bool, true, false, not, ◌&&◌, Option, none, some, List, [], ◌∷◌, map, keep,
  is_some, if◌then◌else◌,
}
use fireme_x.Base.Dict.{Dict, lookup, insert, erase, contains}
use fireme_x.Config.Types.{CameraConfig, SiteConfig}
use fireme_x.Incident.Fleet.{Fleet, by_id, reconfigure, new_fleet, config_differs}
use fireme_x.Ingest.State.{CameraWorker, new_worker, second}
use fireme_x.Ingest.RingBuffer.{new_buffer}
use fireme_x.Supervisor.Settings.{
  Settings, Detector, Host, Fingerprint, shadow_mode, detector_settings, detector_fingerprint,
  build_detector,
}
use native.Mathlib.Decide.{ℕ_discrete}
pub mod Workers
pub mod Rebuild
pub mod Fresh
pub mod Called
pub mod Raised
pub mod Health

-- an `InferenceService` that runs
pub record Inference : Type 0 where
  pub detector : Detector
  pub batch_size : ℕ
  pub batch_timeout_ms : ℕ

-- a started `CameraWorker`, with what it was made from
pub record Running : Type 0 where
  pub camera : CameraConfig
  pub timezone : ℕ
  pub worker : CameraWorker

-- what the dispatcher holds of the configuration
pub record Alerting : Type 0 where
  pub site : SiteConfig
  pub webhooks : List ℕ
  pub shadow_mode : Bool

pub record Pipeline : Type 0 where
  pub settings : Settings
  pub site : SiteConfig
  pub engine : Fleet
  pub workers : Dict Running
  pub detector : Option Detector
  pub inference : Option Inference
  pub dispatcher : Option Alerting
  pub started : Bool
  pub detector_state : Option Fingerprint

-- `__init__`, with an injected detector or none
unfoldable pub new_pipeline : Settings → SiteConfig → Option Detector → Pipeline
new_pipeline settings site detector = record {
  settings = settings;
  site = site;
  engine = new_fleet site.cameras [];
  workers = [];
  detector = detector;
  inference = none;
  dispatcher = none;
  started = false;
  detector_state = none;
}

-- `self.shadow_mode`, `self.detector_settings()` and `self._detector_fingerprint()`
abbrev pub shadow : Pipeline → Bool
shadow p = shadow_mode p.settings p.site.detection

abbrev pub effective : Pipeline → Settings
effective p = detector_settings p.settings p.site.detection

abbrev pub fingerprint : Pipeline → Fingerprint
fingerprint p = detector_fingerprint p.settings p.site.detection

abbrev pub alerting_of : Settings → SiteConfig → Alerting
alerting_of settings site = record {
  site = site;
  webhooks = site.alerting.webhooks;
  shadow_mode = shadow_mode settings site.detection;
}

-- `InferenceService(detector, batch_size, batch_timeout_ms)`
abbrev pub service_of : Settings → Detector → Inference
service_of s d = record {
  detector = d;
  batch_size = s.batch_size;
  batch_timeout_ms = s.batch_timeout_ms;
}

-- a service that has been built and started, or `none` where either raises
unfoldable pub start_service : Host → ℕ → Settings → Option Detector → Option Inference
start_service host n s none = none
start_service host n s (some d) = if host.starts n d then some (service_of s d) else none

-- `self._detector or build_detector(effective)`
pub or_build : Host → Settings → Option Detector → Option Detector
unfolding build_detector
or_build host s none = build_detector host 0 s
or_build host s (some d) = some d

-- `CameraWorker(camera, ..., timezone=self.timezone)`, started
abbrev pub start_worker : ℕ → CameraConfig → Running
start_worker timezone c = record {
  camera = c;
  timezone = timezone;
  worker =
      new_worker c.id (second / c.sample_fps) (15 * second) (60 * second)
        (new_buffer (12 * second) 240);
}

unfoldable pub start_workers : ℕ → List CameraConfig → Dict Running → Dict Running
start_workers timezone [] ws = ws
start_workers timezone (c ∷ cs) ws =
    start_workers timezone cs (insert c.id (start_worker timezone c) ws)

abbrev pub enabled_cameras : SiteConfig → List CameraConfig
enabled_cameras s = keep (λ (c : CameraConfig). c.enabled) s.cameras

-- from the service's `start` on; the service is in place before it is started
pub started_with : Host → Pipeline → Option Detector → Pipeline × Bool
unfolding start_workers
started_with host p none = (p, true)
started_with host p (some d) =
    let service = some (service_of (effective p) d) in
    if host.starts 0 d
    then (
      record p {
        inference = service;
        detector_state = some (fingerprint p);
        dispatcher = some (alerting_of p.settings p.site);
        workers = start_workers p.site.timezone (enabled_cameras p.site) p.workers;
        started = true;
      },
      false,
    )
    else (record p { inference = service }, true)

-- `start`
unfoldable pub start : Host → Pipeline → Pipeline × Bool
unfolding or_build started_with
start host p =
    if p.started then (p, false) else started_with host p (or_build host (effective p) p.detector)

-- the `except` branch of `_restart_inference`: the environment's settings, after which it raises
pub fall_back : Pipeline → Option Inference → Pipeline
fall_back p none = record p { inference = none }
fall_back p (some service) = record p {
  inference = some service;
  detector_state = some (fingerprint p);
}

pub rebuilt : Host → Pipeline → Option Inference → Pipeline × Bool
unfolding fall_back start_service build_detector
rebuilt host p (some service) =
    (record p { inference = some service; detector_state = some (fingerprint p) }, false)
rebuilt host p none =
    (fall_back p (start_service host 1 p.settings (build_detector host 1 p.settings)), true)

pub restart_of : Host → Pipeline → Option Detector → Pipeline × Bool
unfolding rebuilt start_service build_detector
restart_of host p (some _) = (record p { detector_state = some (fingerprint p) }, false)
restart_of host p none =
    rebuilt host p (start_service host 0 (effective p) (build_detector host 0 (effective p)))

-- `_restart_inference`
unfoldable pub restart_inference : Host → Pipeline → Pipeline × Bool
unfolding restart_of
restart_inference host p = restart_of host p p.detector

pub Fingerprint-discrete : Discrete Fingerprint
Fingerprint-discrete = hlevel ℕ_discrete

-- `self._detector_state != self._detector_fingerprint()`
unfoldable pub state_differs : Option Fingerprint → Fingerprint → Bool
state_differs none f = true
state_differs (some s) f = elim (Fingerprint-discrete s f) [ yes _ ↦ false | no _ ↦ true ]

-- `replacement is None or replacement != worker.camera`
abbrev pub is_stale : Option CameraConfig → Running → Bool
is_stale none w = true
is_stale (some c) w = config_differs c w.camera

pub stop_if : Dict CameraConfig → ℕ → Option Running → Dict Running → Dict Running
stop_if wanted k none ws = ws
stop_if wanted k (some w) ws = if is_stale (lookup k wanted) w then erase k ws else ws

-- the loop over `list(self.workers)` that stops workers
unfoldable pub stop_stale : Dict CameraConfig → List ℕ → Dict Running → Dict Running
unfolding stop_if
stop_stale wanted [] ws = ws
stop_stale wanted (k ∷ ks) ws = stop_stale wanted ks (stop_if wanted k (lookup k ws) ws)

-- a worker for a camera that has none; nothing starts without a service
pub start_if : Bool → ℕ → CameraConfig → Option Running → Dict Running → Dict Running
start_if has_service timezone c (some _) ws = ws
start_if has_service timezone c none ws =
    if has_service then insert c.id (start_worker timezone c) ws else ws

-- the loop over `wanted.values()` that starts the missing workers
unfoldable pub start_missing : Bool → ℕ → Dict CameraConfig → Dict Running → Dict Running
unfolding start_if
start_missing has_service timezone [] ws = ws
start_missing has_service timezone ((k, c) ∷ wanted) ws =
    start_missing has_service timezone wanted (start_if has_service timezone c (lookup c.id ws) ws)

pub reconcile : Bool → SiteConfig → Dict Running → Dict Running
unfolding stop_stale start_missing by_id
reconcile has_service site ws =
    let wanted = by_id (enabled_cameras site) [] in
    start_missing has_service site.timezone wanted
      (stop_stale wanted (map (λ (e : ℕ × Running). e.0) ws) ws)

-- the part of `reload_config` after the restart, which an exception skips
pub reconciled : Pipeline × Bool → Pipeline × Bool
unfolding reconcile
reconciled (p, true) = (p, true)
reconciled (p, false) =
    (record p { workers = reconcile (is_some p.inference) p.site p.workers }, false)

-- `self.dispatcher.site = site`, `.webhook` and `.shadow_mode`
abbrev pub refreshed : Settings → SiteConfig → Option Alerting → Option Alerting
refreshed settings site none = none
refreshed settings site (some _) = some (alerting_of settings site)

-- the new site in force, before the detector and the workers are looked at
abbrev pub with_site : Pipeline → SiteConfig → Pipeline
with_site p site = record p {
  site = site;
  engine = reconfigure site.cameras p.engine;
  dispatcher = refreshed p.settings site p.dispatcher;
}

-- `reload_config`, from what `load_site_config` read; `none` is its exception
unfoldable pub reload_config : Host → Option SiteConfig → Pipeline → Pipeline × Bool
unfolding restart_inference reconciled state_differs reconfigure
reload_config host none p = (p, true)
reload_config host (some site) p =
    let loaded = with_site p site in
    reconciled (
      if p.started && state_differs p.detector_state (fingerprint loaded)
      then restart_inference host loaded
      else (loaded, false))
