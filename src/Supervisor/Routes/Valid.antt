-- ===== src/Supervisor/Routes/Valid.antt =====
-- firemex/api/routes_config.py: the sites that the routes save hold models that pydantic accepts, where the
-- site in force and the bodies do. FastAPI answers a body that is not accepted before the route is called.
use fireme_x.Base.{
  ℕ, ◌≡◌, Bool, true, not, List, [], ◌∷◌, All, All-append, All-keep, map, ◌==◌, Bool-cases, inl,
  inr,
}
use fireme_x.Config.Types.{CameraConfig, ContactConfig, SiteConfig}
use fireme_x.Config.Stored.{Pydantic, IsPydantic, IsValid}
use fireme_x.Supervisor.Routes.{
  Request, camera_created, camera_updated, camera_deleted, alerting_updated, detection_updated,
  contact_created, contact_updated, contact_deleted, site_updated, with_camera, with_updated,
  without_camera, with_contact, with_replaced, without_contact, replace_camera, replace_contact,
  new_password, without,
}

-- whether pydantic accepts the body of a request
abbrev pub accepts : Pydantic → Request → Bool
accepts l (camera_created c) = l.accepts_camera c
accepts l (camera_updated k c) = l.accepts_camera c
accepts l (camera_deleted k) = true
accepts l (alerting_updated renders body) = l.accepts_alerting body
accepts l (detection_updated body) = l.accepts_detection body
accepts l (contact_created c) = l.accepts_contact c
accepts l (contact_updated k c) = l.accepts_contact c
accepts l (contact_deleted k) = true
accepts l (site_updated name timezone) = true

module _ (l : Pydantic) (laws : IsPydantic l) where
  pub with_camera-IsValid :
      (c : CameraConfig) (site : SiteConfig)
      → l.accepts_camera c ≡ true
      → IsValid l site
      → IsValid l (with_camera c site)
  with_camera-IsValid c site h valid = record {
    cameras =
        All-append (λ (c : CameraConfig). l.accepts_camera c ≡ true) site.cameras (c ∷ [])
          valid.cameras (h, tt);
    contacts = valid.contacts;
    alerting = valid.alerting;
    detection = valid.detection;
  }

  replace_camera-All :
      (k : ℕ) (c : CameraConfig) (ds : List CameraConfig)
      → l.accepts_camera c ≡ true
      → All (λ d. l.accepts_camera d ≡ true) ds
      → All (λ d. l.accepts_camera d ≡ true) (replace_camera k c ds)
  unfolding replace_camera
  replace_camera-All k c [] h all = tt
  replace_camera-All k c (d ∷ ds) h all = elim (Bool-cases (d.id == k)) [
    | inl here ↦ rw here (h, all.1)
    | inr there ↦ rw there (all.0, replace_camera-All k c ds h all.1)
  ]

  pub with_updated-IsValid :
      (c old : CameraConfig) (site : SiteConfig)
      → l.accepts_camera c ≡ true
      → IsValid l site
      → IsValid l (with_updated c old site)
  with_updated-IsValid c old site h valid = record {
    cameras =
        replace_camera-All c.id (record c { password = new_password c.password old.password })
          site.cameras (laws.any_password c (new_password c.password old.password) h) valid.cameras;
    contacts = valid.contacts;
    alerting = valid.alerting;
    detection = valid.detection;
  }

  pub without_camera-IsValid :
      (k : ℕ) (site : SiteConfig) → IsValid l site → IsValid l (without_camera k site)
  without_camera-IsValid k site valid = record {
    cameras =
        All-keep (λ (c : CameraConfig). l.accepts_camera c ≡ true)
          (λ (c : CameraConfig). not (c.id == k)) site.cameras valid.cameras;
    contacts = valid.contacts;
    alerting = valid.alerting;
    detection = valid.detection;
  }

  pub with_contact-IsValid :
      (c : ContactConfig) (site : SiteConfig)
      → l.accepts_contact c ≡ true
      → IsValid l site
      → IsValid l (with_contact c site)
  with_contact-IsValid c site h valid = record {
    cameras = valid.cameras;
    contacts =
        All-append (λ (c : ContactConfig). l.accepts_contact c ≡ true) site.contacts (c ∷ [])
          valid.contacts (h, tt);
    alerting = valid.alerting;
    detection = valid.detection;
  }

  replace_contact-All :
      (k : ℕ) (c : ContactConfig) (ds : List ContactConfig)
      → l.accepts_contact c ≡ true
      → All (λ d. l.accepts_contact d ≡ true) ds
      → All (λ d. l.accepts_contact d ≡ true) (replace_contact k c ds)
  unfolding replace_contact
  replace_contact-All k c [] h all = tt
  replace_contact-All k c (d ∷ ds) h all = elim (Bool-cases (d.id == k)) [
    | inl here ↦ rw here (h, all.1)
    | inr there ↦ rw there (all.0, replace_contact-All k c ds h all.1)
  ]

  pub with_replaced-IsValid :
      (k : ℕ) (c : ContactConfig) (site : SiteConfig)
      → l.accepts_contact c ≡ true
      → IsValid l site
      → IsValid l (with_replaced k c site)
  with_replaced-IsValid k c site h valid = record {
    cameras = valid.cameras;
    contacts = replace_contact-All k c site.contacts h valid.contacts;
    alerting = valid.alerting;
    detection = valid.detection;
  }

  without-All :
      (k : ℕ) (cs : List CameraConfig)
      → All (λ c. l.accepts_camera c ≡ true) cs
      → All
          (λ c. l.accepts_camera c ≡ true)
          (map (λ (c : CameraConfig). record c { contacts = without k c.contacts }) cs)
  without-All k [] all = tt
  without-All k (c ∷ cs) all =
      (laws.any_contacts c (without k c.contacts) all.0, without-All k cs all.1)

  pub without_contact-IsValid :
      (k : ℕ) (site : SiteConfig) → IsValid l site → IsValid l (without_contact k site)
  without_contact-IsValid k site valid = record {
    cameras = without-All k site.cameras valid.cameras;
    contacts =
        All-keep (λ (c : ContactConfig). l.accepts_contact c ≡ true)
          (λ (c : ContactConfig). not (c.id == k)) site.contacts valid.contacts;
    alerting =
        laws.any_default site.alerting (without k site.alerting.default_contacts) valid.alerting;
    detection = valid.detection;
  }
