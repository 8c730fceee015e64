-- ===== src/Supervisor/Routes/Cameras.antt =====
-- firemex/api/routes_config.py: what an update of a camera saves, its password above all.
use fireme_x.Base.{
  ℕ, suc, ◌≡◌, ◌≢◌, refl, ◌∙◌, ap, true, none, Option, some, List, [], ◌∷◌, arith, if◌then◌else◌,
  Bool-cases, inl, inr, ◌==◌, ==_iff,
}
use fireme_x.Config.Types.{CameraConfig, SiteConfig}
use fireme_x.Config.Site.{check_references, find_camera}
use fireme_x.Supervisor.Routes.{
  on_file, Server, Moment, Write, written, not_opened, cut_off, write_site, ok, new_password,
  replace_camera, with_updated, update_found, update_camera, persist, saved,
}
use fireme_x.Supervisor.Routes.Valid.{with_updated-IsValid}
use fireme_x.Supervisor.Routes.Saved.{IsSaved, saved-loaded}

find_camera-replace :
    (j k : ℕ) (c : CameraConfig) (cs : List CameraConfig) (old : CameraConfig)
    → c.id ≡ k
    → find_camera k cs ≡ some old
    → find_camera j (replace_camera k c cs) ≡ (if k == j then some c else find_camera j cs)
unfolding find_camera replace_camera
find_camera-replace j k c [] old e found = cc
find_camera-replace j k c (d ∷ ds) old e found = elim (Bool-cases (d.id == k)) [
  | inl here ↦ ground arith
  | inr later ↦ ground (arith, find_camera-replace j k c ds old e)
]

-- what is saved of an update: the camera as it was sent, but with the stored password where none was sent
-- and with no password where the empty one was; and every other camera as before
pub record Saves (k : ℕ) (c : CameraConfig) (before after : SiteConfig) : Type 0 where
  pub old : CameraConfig
  pub stored : find_camera k before.cameras ≡ some old
  pub now : CameraConfig
  pub found : find_camera k after.cameras ≡ some now
  pub as_sent : record now { password = none } ≡ record c { password = none }
  pub omitted : c.password ≡ none → now.password ≡ old.password
  pub emptied : c.password ≡ some 0 → now.password ≡ none
  pub given : (x : ℕ) → c.password ≡ some (suc x) → now.password ≡ some (suc x)
  pub others : (j : ℕ) → j ≢ k → find_camera j after.cameras ≡ find_camera j before.cameras

new_password-omitted : (p old : Option ℕ) → p ≡ none → new_password p old ≡ old
new_password-omitted none old h = refl
new_password-omitted (some x) old h = cc

new_password-emptied : (p old : Option ℕ) → p ≡ some 0 → new_password p old ≡ none
new_password-emptied none old h = cc
new_password-emptied (some x) old h = ground arith

new_password-given :
    (x : ℕ) (p old : Option ℕ) → p ≡ some (suc x) → new_password p old ≡ some (suc x)
new_password-given x none old h = cc
new_password-given x (some y) old h = ground arith

with_updated-Saves :
    (k : ℕ) (c old : CameraConfig) (site : SiteConfig)
    → c.id ≡ k
    → find_camera k site.cameras ≡ some old
    → Saves k c site (with_updated c old site)
with_updated-Saves k c old site e found =
    let now : CameraConfig = record c { password = new_password c.password old.password } in
    let looks : (j : ℕ)
        → find_camera j (replace_camera c.id now site.cameras)
          ≡ (if c.id == j then some now else find_camera j site.cameras) =
      λ j.
        find_camera-replace j c.id now site.cameras old refl
          (ap (λ i. find_camera i site.cameras) e ∙ found) in
    record {
      old = old;
      stored = found;
      now = now;
      found = looks k ∙ rw ((==_iff c.id k).1 e) refl;
      as_sent = refl;
      omitted = new_password-omitted c.password old.password;
      emptied = new_password-emptied c.password old.password;
      given = λ x. new_password-given x c.password old.password;
      others = λ j ne. looks j ∙ ground (arith, ==_iff c.id j);
    }

-- a save that is answered with its own status was written after its checks had passed
persist_good :
    (m : Moment) (site : SiteConfig) (s : Server)
    → (persist m ok site s).1 ≡ ok
    → (check_references site ≡ true) × ((persist m ok site s).0 ≡ (saved m ok site s).0)
unfolding persist write_site
persist_good m site s h = elim (Bool-cases (check_references site)) [
  | inr broken ↦ absurd (cc (rw broken at h))
  | inl valid ↦ (valid, rw valid (write_good m.write m site s (rw valid at h)))
]
  where
    write_good :
        (w : Write) (m : Moment) (site : SiteConfig) (s : Server)
        → (write_site w m ok site s).1 ≡ ok
        → (write_site w m ok site s).0 ≡ (saved m ok site s).0
    write_good written m site s h = refl
    write_good not_opened m site s h = absurd (cc h)
    write_good cut_off m site s h = absurd (cc h)

update_found-Saves :
    (m : Moment) (k : ℕ) (c : CameraConfig) (s : Server) (o : Option CameraConfig)
    → IsSaved s
    → s.models.accepts_camera c ≡ true
    → c.id ≡ k
    → find_camera k s.supervisor.site.cameras ≡ o
    → (update_found m c o s).1 ≡ ok
    → (after : SiteConfig) × (on_file (update_found m c o s).0 ≡ some after)
      × Saves k c s.supervisor.site after
unfolding update_found
update_found-Saves m k c s none h fits e found good = absurd (cc good)
update_found-Saves m k c s (some old) h fits e found good =
    let site : SiteConfig = with_updated c old s.supervisor.site in
    let done = persist_good m site s good in
    (
      site,
      ap (λ (t : Server). on_file t) done.1
          ∙ saved-loaded m ok site s h.models
              (with_updated-IsValid s.models h.models c old s.supervisor.site fits h.valid) done.0,
      with_updated-Saves k c old s.supervisor.site e found,
    )

-- Where the configuration in force is sound and pydantic accepts the body, an update of a camera that is
-- answered as done was of a configured camera, and the file loads to a site that has it as it was sent, but
-- with the stored password where none was sent and with no password where the empty one was, and every
-- other camera as before.
pub update_camera-Saves :
    (m : Moment) (k : ℕ) (c : CameraConfig) (s : Server)
    → IsSaved s
    → s.models.accepts_camera c ≡ true
    → (update_camera m k c s).1 ≡ ok
    → (after : SiteConfig) × (on_file (update_camera m k c s).0 ≡ some after)
      × Saves k c s.supervisor.site after
unfolding update_camera
update_camera-Saves m k c s h fits good = elim (Bool-cases (c.id == k)) [
  | inr other ↦ absurd (cc (rw other at good))
  | inl same ↦ rw same (
      update_found-Saves m k c s (find_camera k s.supervisor.site.cameras) h fits
        ((==_iff c.id k).0 same) refl (rw same at good))
]
