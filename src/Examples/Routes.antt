-- ===== src/Examples/Routes.antt =====
-- Runs of the routes that edit the configuration.
use fireme_x.Base.{
  ltb, leb, none, if◌then◌else◌, ◌≡◌, refl, true, some, List, [], ◌∷◌, is_some, inl,
}
use fireme_x.Config.Types.{CameraConfig, ContactConfig, AlertingConfig, DetectionConfig, SiteConfig}
use fireme_x.Config.Site.{check_references, find_camera, find_contact}
use fireme_x.Config.Stored.{
  Pydantic, IsPydantic, IsValid, whole, dump_site_config, load_site_config-dump_site_config,
}
use fireme_x.Supervisor.Settings.{build_detector}
use fireme_x.Supervisor.Pipeline.{reload_config, state_differs, start_service}
use fireme_x.Supervisor.Pipeline.Raised.{Fallen}
use fireme_x.Supervisor.Routes.{
  Server, Moment, Request, written, not_opened, cut_off, ok, bad_request, on_file, serve_all,
  contact_deleted, camera_updated, detection_updated, without_contact, delete_contact,
  update_detection, update_camera, replace_camera,
}
use fireme_x.Supervisor.Routes.Saved.{IsSaved, IsWhole, NoneCutOff, serve_all-IsSaved}
use fireme_x.Supervisor.Routes.Contacts.{Forgets, delete_contact-Forgets}
use fireme_x.Supervisor.Routes.Refused.{update_detection-Fallen}
use fireme_x.Supervisor.Routes.Cameras.{Saves, update_camera-Saves}
use fireme_x.Examples.Data.{site, camera}
use fireme_x.Examples.Pipelines.{bare_host, onnx_site, started}

-- data with every field written out; of the constraints, that a camera has a sampling rate, a contact at
-- most ten retries, and a cooldown is not zero
abbrev models : Pydantic
models = record {
  CameraData = CameraConfig;
  ContactData = ContactConfig;
  AlertingData = AlertingConfig;
  DetectionData = DetectionConfig;
  accepts_camera = λ c. ltb 0 c.sample_fps;
  dump_camera = λ c. c;
  camera = λ c. if ltb 0 c.sample_fps then some c else none;
  accepts_contact = λ c. leb c.retries 10;
  dump_contact = λ c. c;
  contact = λ c. if leb c.retries 10 then some c else none;
  accepts_alerting = λ a. ltb 0 a.cooldown;
  dump_alerting = λ a. a;
  alerting = λ a. if ltb 0 a.cooldown then some a else none;
  accepts_detection = λ d. true;
  dump_detection = λ d. d;
  detection = λ d. some d;
}

models-IsPydantic : IsPydantic models
models-IsPydantic = record {
  camera = λ c h. rw h refl;
  contact = λ c h. rw h refl;
  alerting = λ a h. rw h refl;
  detection = λ d h. refl;
  any_password = λ c password h. h;
  any_contacts = λ c refs h. h;
  any_default = λ a refs h. h;
}

abbrev moment : Moment
moment = record { write = written; host = bare_host }

abbrev server : Server
server = record {
  models = models;
  supervisor = started;
  file = whole (dump_site_config models site);
}

site_sound : check_references site ≡ true
unfolding check_references find_contact
site_sound = refl

site-IsValid : IsValid models site
site-IsValid = record {
  cameras = (refl, tt);
  contacts = (refl, tt);
  alerting = refl;
  detection = refl;
}

server-IsSaved : IsSaved server
server-IsSaved = record {
  models = models-IsPydantic;
  valid = site-IsValid;
  sound = site_sound;
  on_disk =
      inl (load_site_config-dump_site_config models site models-IsPydantic site-IsValid site_sound);
}

-- the camera under a new name, as the dashboard sends it: without its password
abbrev renamed : CameraConfig
renamed = record camera { name = 99 }

abbrev requests : List (Moment × Request)
requests =
    (moment, camera_updated 1 renamed)
    ∷ (moment, detection_updated onnx_site.detection)
    ∷ (record moment { write = not_opened }, contact_deleted 7)
    ∷ (moment, contact_deleted 7)
    ∷ (record moment { write = cut_off }, camera_updated 1 renamed)
    ∷ []

serve_all-IsSaved_example :
    IsSaved (serve_all requests server)
    × (IsWhole server → NoneCutOff requests → IsWhole (serve_all requests server))
serve_all-IsSaved_example =
    serve_all-IsSaved requests server server-IsSaved (refl, (refl, (refl, (refl, (refl, tt)))))

contact_configured : is_some (find_contact 7 site.contacts) ≡ true
unfolding find_contact
contact_configured = refl

delete_contact-Forgets_example :
    (on_file (delete_contact moment 7 server).0 ≡ some (without_contact 7 site))
    × ((delete_contact moment 7 server).0.supervisor.site ≡ without_contact 7 site)
    × (check_references (delete_contact moment 7 server).0.supervisor.site ≡ true)
    × Forgets 7 (delete_contact moment 7 server).0.supervisor.site
delete_contact-Forgets_example =
    delete_contact-Forgets moment 7 server server-IsSaved refl contact_configured

detection_refused : (update_detection moment onnx_site.detection server).1 ≡ bad_request
unfolding update_detection reload_config build_detector start_service state_differs check_references
    find_contact
detection_refused = refl

update_detection-Fallen_example :
    (on_file (update_detection moment onnx_site.detection server).0 ≡ some onnx_site)
    × Fallen bare_host onnx_site started
        (update_detection moment onnx_site.detection server).0.supervisor
update_detection-Fallen_example =
    update_detection-Fallen moment onnx_site.detection server server-IsSaved refl refl
      detection_refused

camera_renamed : (update_camera moment 1 renamed server).1 ≡ ok
unfolding update_camera replace_camera find_camera reload_config build_detector start_service
    state_differs check_references find_contact
camera_renamed = refl

update_camera-Saves_example :
    (after : SiteConfig) × (on_file (update_camera moment 1 renamed server).0 ≡ some after)
    × Saves 1 renamed site after
update_camera-Saves_example =
    update_camera-Saves moment 1 renamed server server-IsSaved refl camera_renamed
