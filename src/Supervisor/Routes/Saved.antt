-- ===== src/Supervisor/Routes/Saved.antt =====
-- firemex/api/routes_config.py: the configuration in force passes its checks, and is the one on disk.
use mathlib.Core.Path.{subst}
use fireme_x.Base.{◌≡◌, ◌≢◌, ◌⊎◌, refl, sym, ◌∙◌, ap, All, true, some, List, [], ◌∷◌, inl, inr}
use fireme_x.Config.Types.{SiteConfig}
use fireme_x.Config.Site.{check_references}
use fireme_x.Config.Stored.{Pydantic, IsPydantic, IsValid, torn, load_site_config-dump_site_config}
use fireme_x.Supervisor.Pipeline.{Pipeline, reload_config}
use fireme_x.Supervisor.Pipeline.Rebuild.{reload_config-site}
use fireme_x.Supervisor.Routes.{
  on_file, Server, Moment, Write, written, not_opened, cut_off, write_site, reply_of, Reply,
  Request, saved, persist, serve, serve_all,
}
use fireme_x.Supervisor.Routes.Valid.{accepts}
use fireme_x.Supervisor.Routes.Kept.{persist_keeps, serve_keeps}

-- The models of the site in force are accepted, its references are sound, and the file loads to that site,
-- or a write was cut off.
pub record IsSaved (s : Server) : Type 0 where
  pub models : IsPydantic s.models
  pub valid : IsValid s.models s.supervisor.site
  pub sound : check_references s.supervisor.site ≡ true
  pub on_disk : (on_file s ≡ some s.supervisor.site) ⊎ (s.file ≡ torn)

-- and the file is there
pub record IsWhole (s : Server) : Type 0 where
  pub is_saved : IsSaved s
  pub is_loaded : on_file s ≡ some s.supervisor.site

-- what was written is loaded again
pub saved-loaded :
    (m : Moment) (good : Reply) (site : SiteConfig) (s : Server)
    → IsPydantic s.models
    → IsValid s.models site
    → check_references site ≡ true
    → on_file (saved m good site s).0 ≡ some site
unfolding saved
saved-loaded m good site s laws valid sound =
    load_site_config-dump_site_config s.models site laws valid sound

-- and the reload is that of the site
pub saved_reloads :
    (m : Moment) (good : Reply) (site : SiteConfig) (s : Server)
    → IsPydantic s.models
    → IsValid s.models site
    → check_references site ≡ true
    → ((saved m good site s).0.supervisor ≡ (reload_config m.host (some site) s.supervisor).0)
      × ((saved m good site s).1 ≡ reply_of good (reload_config m.host (some site) s.supervisor).1)
unfolding saved
saved_reloads m good site s laws valid sound =
    let back = load_site_config-dump_site_config s.models site laws valid sound in
    (
      ap (λ o. (reload_config m.host o s.supervisor).0) back,
      ap (λ o. reply_of good (reload_config m.host o s.supervisor).1) back,
    )

pub saved-site :
    (m : Moment) (good : Reply) (site : SiteConfig) (s : Server)
    → IsPydantic s.models
    → IsValid s.models site
    → check_references site ≡ true
    → (saved m good site s).0.supervisor.site ≡ site
saved-site m good site s laws valid sound =
    ap Pipeline.site (saved_reloads m good site s laws valid sound).0
    ∙ reload_config-site m.host site s.supervisor

saved-IsWhole :
    (m : Moment) (good : Reply) (site : SiteConfig) (s : Server)
    → IsPydantic s.models
    → IsValid s.models site
    → check_references site ≡ true
    → IsWhole (saved m good site s).0
unfolding saved
saved-IsWhole m good site s laws valid sound =
    let force = saved-site m good site s laws valid sound in
    let same = saved-loaded m good site s laws valid sound ∙ ap some (sym force) in
    record {
      is_saved = record {
        models = laws;
        valid = subst (IsValid s.models) (sym force) valid;
        sound = ap check_references force ∙ sound;
        on_disk = inl same;
      };
      is_loaded = same;
    }

write_site-IsSaved :
    (w : Write) (m : Moment) (good : Reply) (site : SiteConfig) (s : Server)
    → IsSaved s
    → IsValid s.models site
    → check_references site ≡ true
    → IsSaved (write_site w m good site s).0
unfolding write_site
write_site-IsSaved written m good site s h valid sound =
    (saved-IsWhole m good site s h.models valid sound).is_saved
write_site-IsSaved not_opened m good site s h valid sound = h
write_site-IsSaved cut_off m good site s h valid sound = record {
  models = h.models;
  valid = h.valid;
  sound = h.sound;
  on_disk = inr refl;
}

write_site-IsWhole :
    (w : Write) (m : Moment) (good : Reply) (site : SiteConfig) (s : Server)
    → w ≢ cut_off
    → IsWhole s
    → IsValid s.models site
    → check_references site ≡ true
    → IsWhole (write_site w m good site s).0
unfolding write_site
write_site-IsWhole written m good site s ne h valid sound =
    saved-IsWhole m good site s h.is_saved.models valid sound
write_site-IsWhole not_opened m good site s ne h valid sound = h
write_site-IsWhole cut_off m good site s ne h valid sound = absurd (ne refl)

write_site-models :
    (w : Write) (m : Moment) (good : Reply) (site : SiteConfig) (s : Server)
    → (write_site w m good site s).0.models ≡ s.models
unfolding write_site saved
write_site-models written m good site s = refl
write_site-models not_opened m good site s = refl
write_site-models cut_off m good site s = refl

-- saved, and whole, by pydantic's answers as they stand
SavedBy : Pydantic → Server → Type 1
SavedBy l s = (s.models ≡ l) × IsSaved s

WholeBy : Pydantic → Server → Type 1
WholeBy l s = (s.models ≡ l) × IsWhole s

persist-models :
    (m : Moment) (good : Reply) (site : SiteConfig) (s : Server)
    → (persist m good site s).0.models ≡ s.models
persist-models m good site s =
    persist_keeps (λ t. t.models ≡ s.models) m good site s
      (λ sound. write_site-models m.write m good site s) refl

persist-SavedBy :
    (l : Pydantic) (m : Moment) (good : Reply) (site : SiteConfig) (s : Server)
    → SavedBy l s
    → IsValid l site
    → SavedBy l (persist m good site s).0
unfolding SavedBy
persist-SavedBy l m good site s h valid = (
  persist-models m good site s ∙ h.0,
  persist_keeps IsSaved m good site s
      (write_site-IsSaved m.write m good site s h.1 (subst (λ t. IsValid t site) (sym h.0) valid))
      h.1,
)

persist-WholeBy :
    (l : Pydantic) (m : Moment)
    → m.write ≢ cut_off
    → (good : Reply) (site : SiteConfig) (s : Server) → WholeBy l s
    → IsValid l site
    → WholeBy l (persist m good site s).0
unfolding WholeBy
persist-WholeBy l m ne good site s h valid = (
  persist-models m good site s ∙ h.0,
  persist_keeps IsWhole m good site s
      (write_site-IsWhole m.write m good site s ne h.1
        (subst (λ t. IsValid t site) (sym h.0) valid))
      h.1,
)

SavedBy-IsValid : (l : Pydantic) (s : Server) → SavedBy l s → IsValid l s.supervisor.site
unfolding SavedBy
SavedBy-IsValid l s h = subst (λ t. IsValid t s.supervisor.site) h.0 h.1.valid

WholeBy-IsValid : (l : Pydantic) (s : Server) → WholeBy l s → IsValid l s.supervisor.site
unfolding WholeBy
WholeBy-IsValid l s h = subst (λ t. IsValid t s.supervisor.site) h.0 h.1.is_saved.valid

-- pydantic accepts every body of these requests
abbrev pub AllAccepted : Pydantic → List (Moment × Request) → Type 0
AllAccepted l rs = All (λ (r : Moment × Request). accepts l r.1 ≡ true) rs

-- no write of these requests was cut off
abbrev pub NoneCutOff : List (Moment × Request) → Type 0
NoneCutOff rs = All (λ (r : Moment × Request). r.0.write ≢ cut_off) rs

serve_all-SavedBy :
    (l : Pydantic) (laws : IsPydantic l) (rs : List (Moment × Request)) (s : Server)
    → AllAccepted l rs
    → SavedBy l s
    → SavedBy l (serve_all rs s)
unfolding serve_all
serve_all-SavedBy l laws [] s bodies h = h
serve_all-SavedBy l laws ((m, r) ∷ rs) s bodies h =
    serve_all-SavedBy l laws rs (serve m r s).0 bodies.1
      (serve_keeps l (SavedBy l) m laws (SavedBy-IsValid l) (persist-SavedBy l m) r s h bodies.0)

serve_all-WholeBy :
    (l : Pydantic) (laws : IsPydantic l) (rs : List (Moment × Request)) (s : Server)
    → AllAccepted l rs
    → NoneCutOff rs
    → WholeBy l s
    → WholeBy l (serve_all rs s)
unfolding serve_all
serve_all-WholeBy l laws [] s bodies all h = h
serve_all-WholeBy l laws ((m, r) ∷ rs) s bodies all h =
    serve_all-WholeBy l laws rs (serve m r s).0 bodies.1 all.1 (
      serve_keeps l (WholeBy l) m laws (WholeBy-IsValid l) (persist-WholeBy l m all.0) r s h
        bodies.0)

-- After any requests to the configuration routes whose bodies pydantic accepts, the failed ones included,
-- the references of the configuration in force are sound, and the file loads to just that configuration,
-- unless a write was cut off after it had emptied the file; where the file loaded to the configuration
-- before, and no write of the requests was cut off, it does.
pub serve_all-IsSaved :
    (rs : List (Moment × Request)) (s : Server)
    → IsSaved s
    → AllAccepted s.models rs
    → IsSaved (serve_all rs s) × (IsWhole s → NoneCutOff rs → IsWhole (serve_all rs s))
unfolding SavedBy WholeBy
serve_all-IsSaved rs s h bodies = (
  (serve_all-SavedBy s.models h.models rs s bodies (refl, h)).1,
  λ k all. (serve_all-WholeBy s.models h.models rs s bodies all (refl, k)).1,
)
