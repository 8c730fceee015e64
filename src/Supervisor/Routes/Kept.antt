-- ===== src/Supervisor/Routes/Kept.antt =====
-- firemex/api/routes_config.py: what the routes keep, where `_persist` keeps it of accepted sites.
use mathlib.Core.Path.{subst}
use fireme_x.Base.{
  ◌≡◌, refl, sym, All, is_some, length, ◌==◌, Bool, true, false, not, Option, none, some,
  if◌then◌else◌, Bool-cases, inl, inr,
}
use fireme_x.Config.Types.{CameraConfig, SiteConfig}
use fireme_x.Config.Site.{check_references, find_camera, find_contact}
use fireme_x.Config.Stored.{Pydantic, IsPydantic, IsValid}
use fireme_x.Supervisor.Routes.{
  with_camera, with_updated, without_camera, with_contact, with_replaced, with_names,
  without_contact, ok, created, no_content, bad_request, not_found, conflict, Server, Moment,
  write_site, Reply, Request, camera_created, camera_updated, camera_deleted, alerting_updated,
  detection_updated, contact_created, contact_updated, contact_deleted, site_updated, persist,
  update_found, create_camera, update_camera, delete_camera, update_alerting, update_detection,
  create_contact, update_contact, delete_contact, update_site, serve,
}
use fireme_x.Supervisor.Routes.Valid.{
  accepts, with_camera-IsValid, with_updated-IsValid, without_camera-IsValid, with_contact-IsValid,
  with_replaced-IsValid, without_contact-IsValid,
}

if_keeps {ℓ} :
    (P : Server → Type ℓ) (b : Bool) (x y : Server × Reply)
    → P x.0
    → P y.0
    → P (if b then x else y).0
if_keeps P true x y h k = h
if_keeps P false x y h k = k

-- `_persist` keeps what its write keeps
pub persist_keeps {ℓ} :
    (P : Server → Type ℓ) (m : Moment) (good : Reply) (site : SiteConfig) (s : Server)
    → (check_references site ≡ true → P (write_site m.write m good site s).0)
    → P s
    → P (persist m good site s).0
unfolding persist
persist_keeps P m good site s h k = elim (Bool-cases (check_references site)) [
  | inl valid ↦ rw valid (h valid)
  | inr broken ↦ rw broken k
]

-- whatever `_persist` keeps of a server with these models, every route keeps, where the body is accepted
module _ (l : Pydantic) (P : Server → Type 1) (m : Moment) (laws : IsPydantic l)
    (valid : (s : Server) → P s → IsValid l s.supervisor.site)
    (step : (good : Reply) (site : SiteConfig) (s : Server)
      → P s
      → IsValid l site
      → P (persist m good site s).0) where
  update_found_keeps :
      (c : CameraConfig) (o : Option CameraConfig) (s : Server)
      → P s
      → l.accepts_camera c ≡ true
      → P (update_found m c o s).0
  unfolding update_found
  update_found_keeps c none s h ok_body = h
  update_found_keeps c (some old) s h ok_body =
      step ok (with_updated c old s.supervisor.site) s h
        (with_updated-IsValid l laws c old s.supervisor.site ok_body (valid s h))

  -- with the field that is put in, or with the names
  rest-IsValid :
      (site new : SiteConfig)
      → IsValid l site
      → new.cameras ≡ site.cameras
      → new.contacts ≡ site.contacts
      → l.accepts_alerting new.alerting ≡ true
      → l.accepts_detection new.detection ≡ true
      → IsValid l new
  rest-IsValid site new h cameras contacts alerting detection = record {
    cameras = subst (All (λ c. l.accepts_camera c ≡ true)) (sym cameras) h.cameras;
    contacts = subst (All (λ c. l.accepts_contact c ≡ true)) (sym contacts) h.contacts;
    alerting = alerting;
    detection = detection;
  }

  pub serve_keeps : (r : Request) (s : Server) → P s → accepts l r ≡ true → P (serve m r s).0
  unfolding serve create_camera update_camera delete_camera update_alerting update_detection
      create_contact update_contact delete_contact update_site
  serve_keeps (camera_created c) s h body =
      if_keeps P (is_some (find_camera c.id s.supervisor.site.cameras)) (s, conflict)
        (persist m created (with_camera c s.supervisor.site) s) h
        (step created (with_camera c s.supervisor.site) s h
          (with_camera-IsValid l laws c s.supervisor.site body (valid s h)))
  serve_keeps (camera_updated k c) s h body =
      if_keeps P (not (c.id == k)) (s, bad_request)
        (update_found m c (find_camera k s.supervisor.site.cameras) s) h
        (update_found_keeps c (find_camera k s.supervisor.site.cameras) s h body)
  serve_keeps (camera_deleted k) s h body =
      if_keeps P
        (length (without_camera k s.supervisor.site).cameras == length s.supervisor.site.cameras)
        (s, not_found) (persist m no_content (without_camera k s.supervisor.site) s) h
        (step no_content (without_camera k s.supervisor.site) s h
          (without_camera-IsValid l laws k s.supervisor.site (valid s h)))
  serve_keeps (alerting_updated renders body) s h fits =
      let new : SiteConfig = record s.supervisor.site { alerting = body } in
      if_keeps P (not renders) (s, bad_request) (persist m ok new s) h
        (step ok new s h
          (rest-IsValid s.supervisor.site new (valid s h) refl refl fits (valid s h).detection))
  serve_keeps (detection_updated body) s h fits =
      let new : SiteConfig = record s.supervisor.site { detection = body } in
      step ok new s h
        (rest-IsValid s.supervisor.site new (valid s h) refl refl (valid s h).alerting fits)
  serve_keeps (contact_created c) s h body =
      if_keeps P (is_some (find_contact c.id s.supervisor.site.contacts)) (s, conflict)
        (persist m created (with_contact c s.supervisor.site) s) h
        (step created (with_contact c s.supervisor.site) s h
          (with_contact-IsValid l laws c s.supervisor.site body (valid s h)))
  serve_keeps (contact_updated k c) s h body =
      let kept = persist m ok (with_replaced k c s.supervisor.site) s in
      let inner =
        if not (is_some (find_contact k s.supervisor.site.contacts))
        then (s, not_found)
        else kept in
      if_keeps P (not (c.id == k)) (s, bad_request) inner h
        (if_keeps P (not (is_some (find_contact k s.supervisor.site.contacts))) (s, not_found) kept
          h
          (step ok (with_replaced k c s.supervisor.site) s h
            (with_replaced-IsValid l laws k c s.supervisor.site body (valid s h))))
  serve_keeps (contact_deleted k) s h body =
      if_keeps P
        (length (without_contact k s.supervisor.site).contacts == length s.supervisor.site.contacts)
        (s, not_found) (persist m no_content (without_contact k s.supervisor.site) s) h
        (step no_content (without_contact k s.supervisor.site) s h
          (without_contact-IsValid l laws k s.supervisor.site (valid s h)))
  serve_keeps (site_updated name timezone) s h body =
      let new : SiteConfig = with_names name timezone s.supervisor.site in
      step ok new s h (
        rest-IsValid s.supervisor.site new (valid s h) refl refl (valid s h).alerting
          (valid s h).detection)
