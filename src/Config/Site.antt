-- ===== src/Config/Site.antt =====
-- firemex/config.py: `SiteConfig`, its reference checks, its lookups and the escalation chain.
use fireme_x.Base.{
  inl, inr, ℕ, ◌≡◌, refl, Bool, true, false, ◌&&◌, ◌||◌, not, Option, none, some, List, [], ◌∷◌,
  map, arith, ◌==◌, if◌then◌else◌, Option-cases, any, is_some,
}
use mathlib.Core.Path.{ap₂}
use fireme_x.Config.Types.{CameraConfig, ContactConfig, SiteConfig}

-- `SiteConfig.camera`: the first camera of that id
unfoldable pub find_camera : ℕ → List CameraConfig → Option CameraConfig
find_camera k [] = none
find_camera k (c ∷ cs) = let rest = find_camera k cs in if c.id == k then some c else rest

abbrev pub camera : SiteConfig → ℕ → Option CameraConfig
camera s k = find_camera k s.cameras

-- `SiteConfig.contact`
unfoldable pub find_contact : ℕ → List ContactConfig → Option ContactConfig
find_contact k [] = none
find_contact k (c ∷ cs) = let rest = find_contact k cs in if c.id == k then some c else rest

abbrev pub contact : SiteConfig → ℕ → Option ContactConfig
contact s k = find_contact k s.contacts

-- `list(camera.contacts) if camera and camera.contacts else []`
abbrev camera_refs : Option CameraConfig → List ℕ
camera_refs none = []
camera_refs (some c) = c.contacts

-- `if not refs: refs = list(self.alerting.default_contacts)`
abbrev or_default : List ℕ → List ℕ → List ℕ
or_default [] refs = refs
or_default (r ∷ rs) _ = r ∷ rs

-- the contacts to call, by reference
abbrev pub chain_refs : SiteConfig → ℕ → List ℕ
chain_refs s k = or_default (camera_refs (camera s k)) s.alerting.default_contacts

abbrev cons_some : Option ContactConfig → List ContactConfig → List ContactConfig
cons_some none cs = cs
cons_some (some c) cs = c ∷ cs

-- `[c for c in (self.contact(r) for r in refs) if c is not None]`
unfoldable pub resolve_refs : SiteConfig → List ℕ → List ContactConfig
resolve_refs s [] = []
resolve_refs s (r ∷ rs) = cons_some (contact s r) (resolve_refs s rs)

unfoldable pub escalation_chain : SiteConfig → ℕ → List ContactConfig
unfolding resolve_refs find_contact find_camera
escalation_chain s k = resolve_refs s (chain_refs s k)

-- `len(set(ids)) != len(ids)`
unfoldable pub has_duplicate : List ℕ → Bool
has_duplicate [] = false
has_duplicate (k ∷ ks) = let rest = has_duplicate ks in any (λ j. j == k) ks || rest

unfoldable pub all_known : SiteConfig → List ℕ → Bool
all_known s [] = true
all_known s (r ∷ rs) = let rest = all_known s rs in is_some (contact s r) && rest

unfoldable pub cameras_known : SiteConfig → List CameraConfig → Bool
cameras_known s [] = true
cameras_known s (c ∷ cs) = let rest = cameras_known s cs in all_known s c.contacts && rest

-- `SiteConfig._check_references`: `false` is a ValueError
unfoldable pub check_references : SiteConfig → Bool
unfolding has_duplicate all_known cameras_known
check_references s =
    not (has_duplicate (map (λ (c : CameraConfig). c.id) s.cameras))
    && not (has_duplicate (map (λ (c : ContactConfig). c.id) s.contacts))
    && cameras_known s s.cameras
    && all_known s s.alerting.default_contacts

find_contact-id :
    (k : ℕ) (cs : List ContactConfig) (c : ContactConfig) → find_contact k cs ≡ some c → c.id ≡ k
unfolding find_contact
find_contact-id k [] c' h = cc
find_contact-id k (c ∷ cs) c' h = ground (arith, find_contact-id k cs c')

resolve_refs_known :
    (s : SiteConfig) (rs : List ℕ)
    → all_known s rs ≡ true
    → map (λ (c : ContactConfig). c.id) (resolve_refs s rs) ≡ rs
unfolding all_known resolve_refs
resolve_refs_known s [] h = refl
resolve_refs_known s (r ∷ rs) h = elim (Option-cases (contact s r)) [
  | inl missing ↦ ground arith
  | inr (c, found) ↦
      rw found
        (ap₂ ◌∷◌ (find_contact-id r s.contacts c found) (resolve_refs_known s rs (ground arith)))
]

camera_refs_known :
    (s : SiteConfig) (k : ℕ) (cs : List CameraConfig)
    → cameras_known s cs ≡ true
    → all_known s (camera_refs (find_camera k cs)) ≡ true
unfolding cameras_known find_camera all_known
camera_refs_known s k [] h = refl
camera_refs_known s k (c ∷ cs) h = ground (arith, camera_refs_known s k cs)

or_default_known :
    (s : SiteConfig) (rs ds : List ℕ)
    → all_known s rs ≡ true
    → all_known s ds ≡ true
    → all_known s (or_default rs ds) ≡ true
or_default_known s [] ds h k = k
or_default_known s (r ∷ rs) ds h k = h

-- In a configuration that passes the reference checks, the escalation chain of any camera holds one
-- contact for each reference, in the order of the references: the camera's own if it names any,
-- else the site's default ones. No reference is dropped.
pub escalation_chain-refs :
    (s : SiteConfig) (k : ℕ)
    → check_references s ≡ true
    → map (λ (c : ContactConfig). c.id) (escalation_chain s k) ≡ chain_refs s k
unfolding escalation_chain check_references
escalation_chain-refs s k h = resolve_refs_known s (chain_refs s k) (
    or_default_known s (camera_refs (camera s k)) s.alerting.default_contacts
      (camera_refs_known s k s.cameras (ground arith)) (ground arith))
