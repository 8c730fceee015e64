-- ===== src/Examples/Pipelines.antt =====
-- Runs of the supervisor's start and reload, of its health and of the event bus.
use fireme_x.Base.{◌≡◌, refl, true, false, none, some, [], ◌∷◌, is_some, ◌↔◌}
use fireme_x.Base.Dict.{lookup}
use fireme_x.Config.Types.{SiteConfig}
use fireme_x.Supervisor.Settings.{Settings, heuristic, stub, onnx, Host, build_detector}
use fireme_x.Supervisor.Pipeline.{
  Pipeline, new_pipeline, reload_config, state_differs, service_of, start_service,
}
use fireme_x.Supervisor.Pipeline.Fresh.{begin, reload, changes, IsFresh, changes-IsFresh}
use fireme_x.Supervisor.Pipeline.Called.{Called, last_enabled, reload_config-Called}
use fireme_x.Supervisor.Pipeline.Raised.{Fallen, reload_config-Fallen}
use fireme_x.Supervisor.Pipeline.Health.{healthy, IsHealthy, healthy_iff}
use fireme_x.Examples.Data.{site}

abbrev pub settings : Settings
settings = record {
  twilio_account_sid = none;
  twilio_auth_token = none;
  twilio_from_number = none;
  detector_backend = stub;
  model_path = 1;
  device = 2;
  batch_size = 8;
  batch_timeout_ms = 80;
  image_size = 640;
  shadow_mode = true;
}

-- a host without weights
abbrev pub bare_host : Host
bare_host = record { exists = λ n path. false; loads = λ n d. true; starts = λ n d. true }

-- the site with its own backend
abbrev pub onnx_site : SiteConfig
onnx_site = record site { detection = record site.detection { backend = some onnx } }

changes-IsFresh_example : IsFresh (
    changes
      (begin bare_host ∷ reload bare_host (some onnx_site) ∷ [])
      (new_pipeline settings site none))
changes-IsFresh_example =
    changes-IsFresh settings site none (begin bare_host ∷ reload bare_host (some onnx_site) ∷ [])

reload_quiet : (reload_config bare_host (some site) (new_pipeline settings site none)).1 ≡ false
unfolding reload_config new_pipeline
reload_quiet = refl

reload_config-Called_example :
    Called site.timezone
      (is_some (reload_config bare_host (some site) (new_pipeline settings site none)).0.inference)
      (last_enabled 1 site.cameras)
      (lookup 1 (new_pipeline settings site none).workers)
      (lookup 1 (reload_config bare_host (some site) (new_pipeline settings site none)).0.workers)
reload_config-Called_example =
    reload_config-Called 1 bare_host site (new_pipeline settings site none) reload_quiet

-- started, with the detector of the environment
abbrev pub started : Pipeline
started = record {
  settings = settings;
  site = site;
  engine = [];
  workers = [];
  detector = none;
  inference = some (service_of settings heuristic);
  dispatcher = none;
  started = true;
  detector_state = none;
}

reload_raises : (reload_config bare_host (some onnx_site) started).1 ≡ true
unfolding reload_config build_detector start_service state_differs
reload_raises = refl

reload_config-Fallen_example :
    Fallen bare_host onnx_site started (reload_config bare_host (some onnx_site) started).0
reload_config-Fallen_example = reload_config-Fallen bare_host onnx_site started reload_raises

healthy_iff_example : ((healthy 5 started).0 ≡ true) ↔ IsHealthy 5 started
healthy_iff_example = healthy_iff 5 started
