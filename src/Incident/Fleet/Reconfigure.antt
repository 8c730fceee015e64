-- ===== src/Incident/Fleet/Reconfigure.antt =====
-- firemex/incident/engine.py: what `reconfigure` makes of each camera's engine.
use fireme_x.Base.{
  ℕ, ◌≡◌, refl, sym, ◌∙◌, ap, true, Option, none, some, List, [], ◌∷◌, arith, ◌==◌, if◌then◌else◌,
  Bool-cases, Option-cases, inl, inr, ==_iff,
}
use fireme_x.Base.Dict.{Dict, lookup, insert, contains, lookup-insert}
use fireme_x.Config.Types.{CameraConfig}
use fireme_x.Incident.Types.{is_confirmed}
use fireme_x.Incident.Engine.{Engine, new_engine}
use fireme_x.Incident.Fleet.{
  Fleet, config_differs, by_id, remove_gone, settle, settle_all, reconfigure,
}

-- each key occurs once, and is the id of its camera
abbrev pub IsIndex : Dict CameraConfig → Type 0
IsIndex [] = Unit
IsIndex ((k, c) ∷ d) = (c.id ≡ k) × (lookup k d ≡ none) × IsIndex d

insert-IsIndex : (c : CameraConfig) (d : Dict CameraConfig) → IsIndex d → IsIndex (insert c.id c d)
insert-IsIndex c [] h = (refl, refl, tt)
insert-IsIndex c ((k, b) ∷ d) h = ground (arith, insert-IsIndex c d h.2, lookup-insert k c.id c d)

pub by_id-IsIndex :
    (cs : List CameraConfig) (d : Dict CameraConfig) → IsIndex d → IsIndex (by_id cs d)
unfolding by_id
by_id-IsIndex [] d h = h
by_id-IsIndex (c ∷ cs) d h = by_id-IsIndex cs (insert c.id c d) (insert-IsIndex c d h)

-- the engine that a camera of the new configuration gets, from the one that it had
abbrev pub settled_engine : CameraConfig → Option Engine → Engine
settled_engine c none = new_engine c
settled_engine c (some e) =
    if config_differs e.camera c
    then (if is_confirmed e.state then record e { camera = c } else new_engine c)
    else e

lookup-settle :
    (j : ℕ) (c : CameraConfig) (f : Fleet)
    → lookup j (settle c (lookup c.id f) f)
      ≡ (if c.id == j then some (settled_engine c (lookup j f)) else lookup j f)
unfolding settle
lookup-settle j c f = elim (Option-cases (lookup c.id f)) [
  | inl missing ↦ ground (arith, lookup-insert j c.id (new_engine c) f)
  | inr (e, found) ↦ ground (
    arith,
    lookup-insert j c.id (new_engine c) f,
    lookup-insert j c.id (record e { camera = c }) f,
  )
]

abbrev after_settling : Option CameraConfig → Option Engine → Option Engine
after_settling none e = e
after_settling (some c) e = some (settled_engine c e)

lookup-settle_all :
    (j : ℕ) (d : Dict CameraConfig) (f : Fleet)
    → IsIndex d
    → lookup j (settle_all d f) ≡ after_settling (lookup j d) (lookup j f)
unfolding settle_all
lookup-settle_all j [] f h = refl
lookup-settle_all j ((k, c) ∷ d) f h =
    let key : lookup k f ≡ lookup c.id f = ap (λ i. lookup i f) (sym h.0) in
    rw key (
      lookup-settle_all j d (settle c (lookup c.id f) f) h.2
      ∙ ground (arith, h, lookup-settle j c f, ==_iff k j))

lookup-remove_gone :
    (j : ℕ) (d : Dict CameraConfig) (f : Fleet)
    → lookup j (remove_gone d f) ≡ (if contains j d then lookup j f else none)
unfolding remove_gone
lookup-remove_gone j d [] = ground arith
lookup-remove_gone j d ((k, e) ∷ f) = elim (Bool-cases (k == j)) [
  | inl same ↦ rw ((==_iff k j).0 same) (ground (arith, lookup-remove_gone j d f))
  | inr other ↦ ground (arith, lookup-remove_gone j d f)
]

-- the engine of one id after a change of configuration
abbrev pub configured : Option CameraConfig → Option Engine → Option Engine
configured none e = none
configured (some c) e = some (settled_engine c e)

-- After a change of configuration, a camera that is not configured has no engine, and a configured one
-- has exactly one of these: its old engine, if its configuration is unchanged; its old engine with the
-- new configuration put in and all else kept, if an incident was open; a new engine, if it had none or
-- was not confirmed.
pub lookup-reconfigure :
    (j : ℕ) (cameras : List CameraConfig) (f : Fleet)
    → lookup j (reconfigure cameras f) ≡ configured (lookup j (by_id cameras [])) (lookup j f)
unfolding reconfigure
lookup-reconfigure j cameras f =
    let d : Dict CameraConfig = by_id cameras [] in
    lookup-settle_all j d (remove_gone d f) (by_id-IsIndex cameras [] tt)
    ∙ ground (arith, lookup-remove_gone j d f)

-- A camera whose configuration changes while its incident is open goes on with the exclusion zones and
-- the window length of the old configuration.
pub reconfigure_keeps_zones :
    (j : ℕ) (cameras : List CameraConfig) (f : Fleet) (c : CameraConfig) (e : Engine)
    → lookup j (by_id cameras []) ≡ some c
    → lookup j f ≡ some e
    → is_confirmed e.state ≡ true
    → config_differs e.camera c ≡ true
    → (e' : Engine) × (lookup j (reconfigure cameras f) ≡ some e')
      × (e'.camera ≡ c)
      × (e'.incident ≡ e.incident)
      × (e'.zones ≡ e.zones)
      × (e'.window_limit ≡ e.window_limit)
reconfigure_keeps_zones j cameras f c e hc he confirmed changed = (
  record e { camera = c },
  lookup-reconfigure j cameras f ∙ rw (hc, he, changed, confirmed),
  refl,
  refl,
  refl,
  refl,
)
