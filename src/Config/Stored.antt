-- ===== src/Config/Stored.antt =====
-- firemex/config.py: `dump_site_config` and `load_site_config`, with the file between them. The text of
-- YAML stands for what it holds, and the dumping and the validation of one model are pydantic's.
use fireme_x.Base.{
  All, Bool, ℕ, ◌≡◌, refl, true, Option, none, some, List, [], ◌∷◌, map, if◌then◌else◌,
}
use fireme_x.Base.Options.{◌>>=◌}
use fireme_x.Config.Types.{CameraConfig, ContactConfig, AlertingConfig, DetectionConfig, SiteConfig}
use fireme_x.Config.Site.{check_references}

-- pydantic for each model: whether its constraints and validators accept the fields, the dumped data,
-- `model_dump` without the fields that are left out, and validation, where `none` is a ValidationError
pub record Pydantic : Type 1 where
  pub CameraData : Type 0
  pub ContactData : Type 0
  pub AlertingData : Type 0
  pub DetectionData : Type 0
  pub accepts_camera : CameraConfig → Bool
  pub dump_camera : CameraConfig → CameraData
  pub camera : CameraData → Option CameraConfig
  pub accepts_contact : ContactConfig → Bool
  pub dump_contact : ContactConfig → ContactData
  pub contact : ContactData → Option ContactConfig
  pub accepts_alerting : AlertingConfig → Bool
  pub dump_alerting : AlertingConfig → AlertingData
  pub alerting : AlertingData → Option AlertingConfig
  pub accepts_detection : DetectionConfig → Bool
  pub dump_detection : DetectionConfig → DetectionData
  pub detection : DetectionData → Option DetectionConfig

-- What its documentation says: a model with accepted fields that is dumped validates to the same model,
-- where the fields that were left out take their defaults again; and a field without a constraint of its
-- own may have any value of its type.
pub record IsPydantic (l : Pydantic) : Type 0 where
  pub camera : (c : CameraConfig) → l.accepts_camera c ≡ true → l.camera (l.dump_camera c) ≡ some c
  pub contact :
      (c : ContactConfig) → l.accepts_contact c ≡ true → l.contact (l.dump_contact c) ≡ some c
  pub alerting :
      (a : AlertingConfig) → l.accepts_alerting a ≡ true → l.alerting (l.dump_alerting a) ≡ some a
  pub detection :
      (d : DetectionConfig)
      → l.accepts_detection d ≡ true
      → l.detection (l.dump_detection d) ≡ some d
  pub any_password :
      (c : CameraConfig) (password : Option ℕ)
      → l.accepts_camera c ≡ true
      → l.accepts_camera (record c { password = password }) ≡ true
  pub any_contacts :
      (c : CameraConfig) (refs : List ℕ)
      → l.accepts_camera c ≡ true
      → l.accepts_camera (record c { contacts = refs }) ≡ true
  pub any_default :
      (a : AlertingConfig) (refs : List ℕ)
      → l.accepts_alerting a ≡ true
      → l.accepts_alerting (record a { default_contacts = refs }) ≡ true

-- every model in the site has accepted fields
pub record IsValid (l : Pydantic) (s : SiteConfig) : Type 0 where
  pub cameras : All (λ c. l.accepts_camera c ≡ true) s.cameras
  pub contacts : All (λ c. l.accepts_contact c ≡ true) s.contacts
  pub alerting : l.accepts_alerting s.alerting ≡ true
  pub detection : l.accepts_detection s.detection ≡ true

-- the keys of the file
pub record Payload (l : Pydantic) : Type 0 where
  pub name : ℕ
  pub timezone : ℕ
  pub cameras : List l.CameraData
  pub contacts : List l.ContactData
  pub alerting : l.AlertingData
  pub detection : l.DetectionData

-- the file, or what is left of it where a write was cut off after it had been emptied
pub data File (l : Pydantic) : Type 0 where
  whole : Payload l → File l
  torn : File l

-- what `dump_site_config` writes
abbrev pub dump_site_config : (l : Pydantic) → SiteConfig → Payload l
dump_site_config l s = record {
  name = s.name;
  timezone = s.timezone;
  cameras = map l.dump_camera s.cameras;
  contacts = map l.dump_contact s.contacts;
  alerting = l.dump_alerting s.alerting;
  detection = l.dump_detection s.detection;
}

abbrev pub validate_all {ℓ} : {R : Type 0} {A : Type ℓ} → (R → Option A) → List R → Option (List A)
validate_all f [] = some []
validate_all f (x ∷ xs) =
    let rest = validate_all f xs in
    elim (f x) [ none ↦ none | some a ↦ elim rest [ none ↦ none | some more ↦ some (a ∷ more) ] ]

-- `load_site_config` of a file that is there: `none` is a ValidationError
unfoldable pub load_site_config : (l : Pydantic) → Payload l → Option SiteConfig
unfolding check_references
load_site_config l f = do
  cameras ← validate_all l.camera f.cameras
  contacts ← validate_all l.contact f.contacts
  alerting ← l.alerting f.alerting
  detection ← l.detection f.detection
  (let site : SiteConfig = record {
    name = f.name;
    timezone = f.timezone;
    cameras = cameras;
    contacts = contacts;
    alerting = alerting;
    detection = detection;
  } in
      if check_references site then some site else none)

-- what there is to load from a file; of a torn one nothing is said
abbrev pub loaded : (l : Pydantic) → File l → Option SiteConfig
loaded l torn = none
loaded l (whole f) = load_site_config l f

validate_all-map {ℓ} :
    {R : Type 0} {A : Type ℓ} (f : R → Option A) (g : A → R) (accepts : A → Bool) (items : List A)
    → ((a : A) → accepts a ≡ true → f (g a) ≡ some a)
    → All (λ a. accepts a ≡ true) items
    → validate_all f (map g items) ≡ some items
validate_all-map f g accepts [] h valid = refl
validate_all-map f g accepts (a ∷ items) h valid =
    rw (h a valid.0, validate_all-map f g accepts items h valid.1) refl

-- A site of accepted models with sound references that is dumped is loaded again.
pub load_site_config-dump_site_config :
    (l : Pydantic) (s : SiteConfig)
    → IsPydantic l
    → IsValid l s
    → check_references s ≡ true
    → load_site_config l (dump_site_config l s) ≡ some s
unfolding load_site_config
load_site_config-dump_site_config l s laws valid sound =
    rw
      (
        validate_all-map l.camera l.dump_camera l.accepts_camera s.cameras laws.camera
            valid.cameras,
        validate_all-map l.contact l.dump_contact l.accepts_contact s.contacts laws.contact
            valid.contacts,
        laws.alerting s.alerting valid.alerting,
        laws.detection s.detection valid.detection,
        sound,
      )
      refl
