-- ===== src/Supervisor/Routes/Contacts.antt =====
-- firemex/api/routes_config.py: what deleting a contact does to the references to it.
use mathlib.Core.Path.{subst}
use fireme_x.Base.{
  All, length-keep_le, ℕ, ◌≡◌, refl, some, sym, ◌∙◌, ap, Bool, true, false, not, none, List, [],
  ◌∷◌, arith, Bool-cases, inl, inr, any, keep, map, is_some, ◌==◌, length,
}
use fireme_x.Config.Types.{CameraConfig, ContactConfig, SiteConfig}
use fireme_x.Config.Site.{check_references, find_contact, has_duplicate, all_known, cameras_known}
use fireme_x.Supervisor.Routes.{
  on_file, saved, Server, Moment, written, write_site, no_content, without, without_contact,
  persist, delete_contact,
}
use fireme_x.Supervisor.Routes.Valid.{without_contact-IsValid}
use fireme_x.Supervisor.Routes.Saved.{IsSaved, saved-site, saved-loaded}

abbrev contact_ids : List ContactConfig → List ℕ
contact_ids cs = map (λ (c : ContactConfig). c.id) cs

abbrev camera_ids : List CameraConfig → List ℕ
camera_ids cs = map (λ (c : CameraConfig). c.id) cs

contact_ids-keep :
    (k : ℕ) (cs : List ContactConfig)
    → contact_ids (keep (λ (c : ContactConfig). not (c.id == k)) cs) ≡ without k (contact_ids cs)
contact_ids-keep k [] = refl
contact_ids-keep k (c ∷ cs) = elim (Bool-cases (c.id == k)) [
  | inl gone ↦ simp gone (contact_ids-keep k cs)
  | inr stays ↦ simp stays (ap (◌∷◌ c.id) (contact_ids-keep k cs))
]

any-without : (p : ℕ → Bool) (k : ℕ) (js : List ℕ) → any p js ≡ false → any p (without k js) ≡ false
any-without p k [] h = refl
any-without p k (j ∷ js) h = ground (arith, any-without p k js)

has_duplicate-without :
    (k : ℕ) (js : List ℕ) → has_duplicate js ≡ false → has_duplicate (without k js) ≡ false
unfolding has_duplicate
has_duplicate-without k [] h = refl
has_duplicate-without k (j ∷ js) h =
    ground (arith, has_duplicate-without k js, any-without (λ i. i == j) k js)

camera_ids-map :
    (k : ℕ) (cs : List CameraConfig)
    → camera_ids (map (λ (c : CameraConfig). record c { contacts = without k c.contacts }) cs)
      ≡ camera_ids cs
camera_ids-map k [] = refl
camera_ids-map k (c ∷ cs) = ap (◌∷◌ c.id) (camera_ids-map k cs)

find_contact-keep_ne :
    (k r : ℕ) (cs : List ContactConfig)
    → (r == k) ≡ false
    → find_contact r (keep (λ (c : ContactConfig). not (c.id == k)) cs) ≡ find_contact r cs
unfolding find_contact
find_contact-keep_ne k r [] h = refl
find_contact-keep_ne k r (c ∷ cs) h = elim (Bool-cases (c.id == k)) [
  | inl gone ↦ ground (arith, find_contact-keep_ne k r cs)
  | inr stays ↦ ground (arith, find_contact-keep_ne k r cs)
]

pub find_contact-keep_self :
    (k : ℕ) (cs : List ContactConfig)
    → find_contact k (keep (λ (c : ContactConfig). not (c.id == k)) cs) ≡ none
unfolding find_contact
find_contact-keep_self k [] = refl
find_contact-keep_self k (c ∷ cs) = elim (Bool-cases (c.id == k)) [
  | inl gone ↦ ground (arith, find_contact-keep_self k cs)
  | inr stays ↦ ground (arith, find_contact-keep_self k cs)
]

module _ (k : ℕ) (s : SiteConfig) where
  all_known-without :
      (refs : List ℕ)
      → all_known s refs ≡ true
      → all_known (without_contact k s) (without k refs) ≡ true
  unfolding all_known
  all_known-without [] h = refl
  all_known-without (r ∷ rs) h = elim (Bool-cases (r == k)) [
    | inl gone ↦ rw gone (all_known-without rs (ground arith))
    | inr stays ↦
        rw (stays, all_known, find_contact-keep_ne k r s.contacts stays)
          (ground (arith, all_known-without rs))
  ]

  cameras_known-without :
      (cs : List CameraConfig)
      → cameras_known s cs ≡ true
      → cameras_known
          (without_contact k s)
          (map (λ (c : CameraConfig). record c { contacts = without k c.contacts }) cs)
        ≡ true
  unfolding cameras_known
  cameras_known-without [] h = refl
  cameras_known-without (c ∷ cs) h =
      ground (arith, all_known-without c.contacts, cameras_known-without cs)

  pub without_contact-valid :
      check_references s ≡ true → check_references (without_contact k s) ≡ true
  unfolding check_references
  without_contact-valid h =
      rw (camera_ids-map k s.cameras, contact_ids-keep k s.contacts)
        (ground (
          arith,
          has_duplicate-without k (contact_ids s.contacts),
          cameras_known-without s.cameras,
          all_known-without s.alerting.default_contacts,
        ))

any-without_self : (k : ℕ) (refs : List ℕ) → any (λ r. r == k) (without k refs) ≡ false
any-without_self k [] = refl
any-without_self k (r ∷ rs) = ground (arith, any-without_self k rs)

-- no list of contacts that a site names has k
pub record Forgets (k : ℕ) (site : SiteConfig) : Type 0 where
  pub contact : find_contact k site.contacts ≡ none
  pub cameras : All (λ (c : CameraConfig). any (λ r. r == k) c.contacts ≡ false) site.cameras
  pub default : any (λ r. r == k) site.alerting.default_contacts ≡ false

cameras-Forgets :
    (k : ℕ) (cs : List CameraConfig)
    → All
        (λ (c : CameraConfig). any (λ r. r == k) c.contacts ≡ false)
        (map (λ (c : CameraConfig). record c { contacts = without k c.contacts }) cs)
cameras-Forgets k [] = tt
cameras-Forgets k (c ∷ cs) = (any-without_self k c.contacts, cameras-Forgets k cs)

without_contact-Forgets : (k : ℕ) (site : SiteConfig) → Forgets k (without_contact k site)
without_contact-Forgets k site = record {
  contact = find_contact-keep_self k site.contacts;
  cameras = cameras-Forgets k site.cameras;
  default = any-without_self k site.alerting.default_contacts;
}

fewer :
    (k : ℕ) (cs : List ContactConfig)
    → is_some (find_contact k cs) ≡ true
    → (length (keep (λ (c : ContactConfig). not (c.id == k)) cs) == length cs) ≡ false
unfolding find_contact
fewer k [] h = cc
fewer k (c ∷ cs) h =
    ground (arith, fewer k cs, length-keep_le (λ (d : ContactConfig). not (d.id == k)) cs)

delete_contact-saved :
    (m : Moment) (k : ℕ) (s : Server)
    → m.write ≡ written
    → is_some (find_contact k s.supervisor.site.contacts) ≡ true
    → check_references (without_contact k s.supervisor.site) ≡ true
    → (delete_contact m k s).0 ≡ (saved m no_content (without_contact k s.supervisor.site) s).0
unfolding delete_contact persist write_site
delete_contact-saved m k s writes there valid =
    rw (fewer k s.supervisor.site.contacts there, valid, writes) refl

-- Where the configuration in force is sound, the file can be written, and the contact is configured, its
-- deletion is saved: the file loads to the site without it, which is in force and passes the checks, and
-- neither a camera nor the default chain refers to the contact any more.
pub delete_contact-Forgets :
    (m : Moment) (k : ℕ) (s : Server)
    → IsSaved s
    → m.write ≡ written
    → is_some (find_contact k s.supervisor.site.contacts) ≡ true
    → (on_file (delete_contact m k s).0 ≡ some (without_contact k s.supervisor.site))
      × ((delete_contact m k s).0.supervisor.site ≡ without_contact k s.supervisor.site)
      × (check_references (delete_contact m k s).0.supervisor.site ≡ true)
      × Forgets k (delete_contact m k s).0.supervisor.site
delete_contact-Forgets m k s h writes there =
    let site : SiteConfig = without_contact k s.supervisor.site in
    let valid = without_contact-valid k s.supervisor.site h.sound in
    let fits = without_contact-IsValid s.models h.models k s.supervisor.site h.valid in
    let after = delete_contact-saved m k s writes there valid in
    let file = ap (λ (t : Server). on_file t) after in
    let force =
      ap (λ (t : Server). t.supervisor.site) after
      ∙ saved-site m no_content site s h.models fits valid in
    (
      file ∙ saved-loaded m no_content site s h.models fits valid,
      force,
      ap check_references force ∙ valid,
      subst (Forgets k) (sym force) (without_contact-Forgets k s.supervisor.site),
    )
