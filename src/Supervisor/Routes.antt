-- ===== src/Supervisor/Routes.antt =====
-- firemex/api/routes_config.py: the routes that edit the configuration. How the write of the file ends and
-- what the host answers to a reload are parameters of a request. Bodies have passed their field
-- validators; the empty text is 0. A reply is a status; the payloads, and the routes that only read or
-- probe, are left out.
use fireme_x.Base.{
  ℕ, Bool, true, false, not, Option, none, some, List, [], ◌∷◌, ◌++◌, map, keep, length, is_some,
  ◌==◌, if◌then◌else◌,
}
use fireme_x.Config.Types.{CameraConfig, ContactConfig, SiteConfig, AlertingConfig, DetectionConfig}
use fireme_x.Config.Site.{check_references, find_camera, find_contact}
use fireme_x.Config.Stored.{Pydantic, File, whole, torn, loaded, dump_site_config, load_site_config}
use fireme_x.Supervisor.Settings.{Host}
use fireme_x.Supervisor.Pipeline.{Pipeline, reload_config}
pub mod Valid
pub mod Kept
pub mod Saved
pub mod Contacts
pub mod Refused
pub mod Cameras

pub record Server : Type 1 where
  pub models : Pydantic
  pub supervisor : Pipeline
  pub file : File models

-- the configuration that the file holds
abbrev pub on_file : Server → Option SiteConfig
on_file s = loaded s.models s.file

-- how `Path.write_text` ends: the file is written, or cannot be opened, or is opened, and by that emptied,
-- and then not written to its end
pub data Write : Type 0 where
  written not_opened cut_off : Write

-- the host during one request
pub record Moment : Type 0 where
  pub write : Write
  pub host : Host

pub data Reply : Type 0 where
  ok created no_content : Reply
  bad_request not_found conflict : Reply
  -- HTTP 500 with the reason, and an exception of the reload
  cannot_save failed : Reply

pub reply_of : Reply → Bool → Reply
reply_of good false = good
reply_of good true = failed

-- the reload of `_persist`, which reads the file that was written
pub saved : Moment → Reply → SiteConfig → Server → Server × Reply
unfolding reload_config reply_of load_site_config
saved m good site s =
    let file = dump_site_config s.models site in
    let (p, raised) = reload_config m.host (load_site_config s.models file) s.supervisor in
    (record s { supervisor = p; file = whole file }, reply_of good raised)

-- the write of `_persist`: an OSError is HTTP 500
pub write_site : Write → Moment → Reply → SiteConfig → Server → Server × Reply
unfolding saved
write_site written m good site s = saved m good site s
write_site not_opened m good site s = (s, cannot_save)
write_site cut_off m good site s = (record s { file = torn }, cannot_save)

-- `_persist`, with the reply of the route that calls it
unfoldable pub persist : Moment → Reply → SiteConfig → Server → Server × Reply
unfolding check_references write_site
persist m good site s =
    if check_references site then write_site m.write m good site s else (s, bad_request)

abbrev pub with_camera : CameraConfig → SiteConfig → SiteConfig
with_camera c site = record site { cameras = site.cameras ++ c ∷ [] }

-- `create_camera`
unfoldable pub create_camera : Moment → CameraConfig → Server → Server × Reply
unfolding find_camera persist
create_camera m c s =
    if is_some (find_camera c.id s.supervisor.site.cameras)
    then (s, conflict)
    else persist m created (with_camera c s.supervisor.site) s

-- the password of an update: omitted, it stays; empty, it goes
abbrev pub new_password : Option ℕ → Option ℕ → Option ℕ
new_password none stored = stored
new_password (some k) stored = if k == 0 then none else some k

-- `site.cameras[index] = updated`, at the first camera of that id
unfoldable pub replace_camera : ℕ → CameraConfig → List CameraConfig → List CameraConfig
replace_camera k c [] = []
replace_camera k c (d ∷ ds) =
    let rest = replace_camera k c ds in if d.id == k then c ∷ ds else d ∷ rest

abbrev pub with_updated : CameraConfig → CameraConfig → SiteConfig → SiteConfig
with_updated c old site =
    let updated = record c { password = new_password c.password old.password } in
    record site { cameras = replace_camera c.id updated site.cameras }

pub update_found : Moment → CameraConfig → Option CameraConfig → Server → Server × Reply
unfolding persist replace_camera
update_found m c none s = (s, not_found)
update_found m c (some old) s = persist m ok (with_updated c old s.supervisor.site) s

-- `update_camera`
unfoldable pub update_camera : Moment → ℕ → CameraConfig → Server → Server × Reply
unfolding find_camera update_found
update_camera m k c s =
    if not (c.id == k)
    then (s, bad_request)
    else update_found m c (find_camera k s.supervisor.site.cameras) s

abbrev pub without_camera : ℕ → SiteConfig → SiteConfig
without_camera k site = record site {
  cameras = keep (λ (c : CameraConfig). not (c.id == k)) site.cameras;
}

-- `delete_camera`
unfoldable pub delete_camera : Moment → ℕ → Server → Server × Reply
unfolding persist
delete_camera m k s =
    let site = s.supervisor.site in
    if length (without_camera k site).cameras == length site.cameras
    then (s, not_found)
    else persist m no_content (without_camera k site) s

-- `update_alerting`, with whether both templates render
unfoldable pub update_alerting : Moment → Bool → AlertingConfig → Server → Server × Reply
unfolding persist
update_alerting m renders body s =
    if not renders
    then (s, bad_request)
    else persist m ok (record s.supervisor.site { alerting = body }) s

-- an exception of the reload is a bad request here
pub refused : Reply → Reply
refused failed = bad_request
refused r = r

-- `update_detection`
unfoldable pub update_detection : Moment → DetectionConfig → Server → Server × Reply
unfolding persist refused
update_detection m body s =
    let (s', reply) = persist m ok (record s.supervisor.site { detection = body }) s in
    (s', refused reply)

abbrev pub with_contact : ContactConfig → SiteConfig → SiteConfig
with_contact c site = record site { contacts = site.contacts ++ c ∷ [] }

-- `create_contact`
unfoldable pub create_contact : Moment → ContactConfig → Server → Server × Reply
unfolding find_contact persist
create_contact m c s =
    if is_some (find_contact c.id s.supervisor.site.contacts)
    then (s, conflict)
    else persist m created (with_contact c s.supervisor.site) s

-- `site.contacts[index] = contact`, at the first contact of that id
unfoldable pub replace_contact : ℕ → ContactConfig → List ContactConfig → List ContactConfig
replace_contact k c [] = []
replace_contact k c (d ∷ ds) =
    let rest = replace_contact k c ds in if d.id == k then c ∷ ds else d ∷ rest

abbrev pub with_replaced : ℕ → ContactConfig → SiteConfig → SiteConfig
with_replaced k c site = record site { contacts = replace_contact k c site.contacts }

-- `update_contact`
unfoldable pub update_contact : Moment → ℕ → ContactConfig → Server → Server × Reply
unfolding find_contact persist replace_contact
update_contact m k c s =
    if not (c.id == k)
    then (s, bad_request)
    else if not (is_some (find_contact k s.supervisor.site.contacts))
    then (s, not_found)
    else persist m ok (with_replaced k c s.supervisor.site) s

abbrev pub without : ℕ → List ℕ → List ℕ
without k refs = keep (λ ref. not (ref == k)) refs

-- the site without a contact and the references to it
abbrev pub without_contact : ℕ → SiteConfig → SiteConfig
without_contact k site = record site {
  contacts = keep (λ (c : ContactConfig). not (c.id == k)) site.contacts;
  cameras = map (λ (c : CameraConfig). record c { contacts = without k c.contacts }) site.cameras;
  alerting = record site.alerting { default_contacts = without k site.alerting.default_contacts };
}

-- `delete_contact`
unfoldable pub delete_contact : Moment → ℕ → Server → Server × Reply
unfolding persist
delete_contact m k s =
    let site = s.supervisor.site in
    if length (without_contact k site).contacts == length site.contacts
    then (s, not_found)
    else persist m no_content (without_contact k site) s

abbrev or_kept : Option ℕ → ℕ → ℕ
or_kept none old = old
or_kept (some new) old = new

abbrev pub with_names : Option ℕ → Option ℕ → SiteConfig → SiteConfig
with_names name timezone site = record site {
  name = or_kept name site.name;
  timezone = or_kept timezone site.timezone;
}

-- `update_site`
unfoldable pub update_site : Moment → Option ℕ → Option ℕ → Server → Server × Reply
unfolding persist
update_site m name timezone s = persist m ok (with_names name timezone s.supervisor.site) s

pub data Request : Type 0 where
  camera_created : CameraConfig → Request
  camera_updated : ℕ → CameraConfig → Request
  camera_deleted : ℕ → Request
  alerting_updated : Bool → AlertingConfig → Request
  detection_updated : DetectionConfig → Request
  contact_created : ContactConfig → Request
  contact_updated : ℕ → ContactConfig → Request
  contact_deleted : ℕ → Request
  site_updated : Option ℕ → Option ℕ → Request

unfoldable pub serve : Moment → Request → Server → Server × Reply
unfolding create_camera update_camera delete_camera update_alerting update_detection create_contact
    update_contact delete_contact update_site
serve m (camera_created c) s = create_camera m c s
serve m (camera_updated k c) s = update_camera m k c s
serve m (camera_deleted k) s = delete_camera m k s
serve m (alerting_updated renders body) s = update_alerting m renders body s
serve m (detection_updated body) s = update_detection m body s
serve m (contact_created c) s = create_contact m c s
serve m (contact_updated k c) s = update_contact m k c s
serve m (contact_deleted k) s = delete_contact m k s
serve m (site_updated name timezone) s = update_site m name timezone s

unfoldable pub serve_all : List (Moment × Request) → Server → Server
unfolding serve
serve_all [] s = s
serve_all ((m, r) ∷ rs) s = serve_all rs (serve m r s).0
