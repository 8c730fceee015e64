-- ===== src/Supervisor/Pipeline/Workers.antt =====
-- firemex/supervisor.py: which workers run after `reload_config`.
use fireme_x.Base.{
  ℕ, ◌≡◌, refl, sym, ◌∙◌, ap, Bool, false, Option, none, some, List, [], ◌∷◌, map, arith, ◌==◌,
  if◌then◌else◌, Bool-cases, inl, inr, ==_iff, any,
}
use fireme_x.Base.Dict.{Dict, lookup, lookup-insert, lookup-erase}
use fireme_x.Config.Types.{CameraConfig, SiteConfig}
use fireme_x.Incident.Fleet.{by_id}
use fireme_x.Incident.Fleet.Reconfigure.{IsIndex, by_id-IsIndex}
use fireme_x.Supervisor.Pipeline.{
  start_if, Running, is_stale, stop_if, stop_stale, start_missing, start_worker, reconcile,
  enabled_cameras,
}

-- the worker of one camera that stays
abbrev pub kept : Option CameraConfig → Option Running → Option Running
kept wanted none = none
kept wanted (some w) = if is_stale wanted w then none else some w

kept-kept :
    (wanted : Option CameraConfig) (o : Option Running)
    → kept wanted (kept wanted o) ≡ kept wanted o
kept-kept wanted none = refl
kept-kept wanted (some w) = elim (Bool-cases (is_stale wanted w)) [
  | inl stale ↦ rw stale refl
  | inr fresh ↦ rw fresh (rw fresh refl)
]

lookup-stop_if :
    (j k : ℕ) (wanted : Dict CameraConfig) (o : Option Running) (ws : Dict Running)
    → lookup k ws ≡ o
    → lookup j (stop_if wanted k o ws)
      ≡ (if k == j then kept (lookup j wanted) (lookup j ws) else lookup j ws)
unfolding stop_if
lookup-stop_if j k wanted none ws found = elim (Bool-cases (k == j)) [
  | inl same ↦
      let here : lookup j ws ≡ none = ap (λ i. lookup i ws) (sym ((==_iff k j).0 same)) ∙ found in
      rw (same, here) refl
  | inr other ↦ rw other refl
]
lookup-stop_if j k wanted (some w) ws found = elim (Bool-cases (k == j)) [
  | inl same ↦
      let e : k ≡ j = (==_iff k j).0 same in
      let here : lookup j ws ≡ some w = ap (λ i. lookup i ws) (sym e) ∙ found in
      rw (same, here, e)
        (elim (Bool-cases (is_stale (lookup j wanted) w)) [
          | inl stale ↦ rw stale (ground (arith, lookup-erase j j ws))
          | inr fresh ↦ rw fresh here
        ])
  | inr other ↦ rw other (elim (Bool-cases (is_stale (lookup k wanted) w)) [
    | inl stale ↦ rw stale (ground (arith, lookup-erase j k ws))
    | inr fresh ↦ rw fresh refl
  ])
]

member : ℕ → List ℕ → Bool
member j ks = any (λ k. k == j) ks

lookup-stop_stale :
    (j : ℕ) (wanted : Dict CameraConfig) (ks : List ℕ) (ws : Dict Running)
    → lookup j (stop_stale wanted ks ws)
      ≡ (if member j ks then kept (lookup j wanted) (lookup j ws) else lookup j ws)
unfolding stop_stale member
lookup-stop_stale j wanted [] ws = refl
lookup-stop_stale j wanted (k ∷ ks) ws =
    let o : Option Running = lookup k ws in
    let step = lookup-stop_if j k wanted o ws refl in
    let rest = lookup-stop_stale j wanted ks (stop_if wanted k o ws) in
    rest
    ∙ rw step (elim (Bool-cases (k == j)) [
      | inl same ↦ rw same (elim (Bool-cases (member j ks)) [
        | inl again ↦ rw again (kept-kept (lookup j wanted) (lookup j ws))
        | inr once ↦ rw once refl
      ])
      | inr other ↦ rw other refl
    ])

keys_miss :
    (j : ℕ) (ws : Dict Running)
    → member j (map (λ (e : ℕ × Running). e.0) ws) ≡ false
    → lookup j ws ≡ none
unfolding member
keys_miss j [] h = refl
keys_miss j ((k, w) ∷ ws) h = ground (arith, keys_miss j ws)

-- the worker of one camera after the missing ones are started
abbrev pub or_started : Bool → ℕ → Option CameraConfig → Option Running → Option Running
or_started has_service timezone wanted (some w) = some w
or_started has_service timezone none none = none
or_started has_service timezone (some c) none =
    if has_service then some (start_worker timezone c) else none

lookup-start_if :
    (j : ℕ) (b : Bool) (timezone : ℕ) (c : CameraConfig) (o : Option Running) (ws : Dict Running)
    → lookup c.id ws ≡ o
    → lookup j (start_if b timezone c o ws)
      ≡ (if c.id == j then or_started b timezone (some c) (lookup j ws) else lookup j ws)
unfolding start_if
lookup-start_if j b timezone c none ws found = elim (Bool-cases (c.id == j)) [
  | inl same ↦
      let here : lookup j ws ≡ none =
        ap (λ i. lookup i ws) (sym ((==_iff c.id j).0 same)) ∙ found in
      rw (same, here)
        (elim (Bool-cases b) [
          | inl running ↦
              rw running (lookup-insert j c.id (start_worker timezone c) ws ∙ rw same refl)
          | inr absent ↦ rw absent here
        ])
  | inr other ↦ rw other (elim (Bool-cases b) [
    | inl running ↦ rw running (lookup-insert j c.id (start_worker timezone c) ws ∙ rw other refl)
    | inr absent ↦ rw absent refl
  ])
]
lookup-start_if j b timezone c (some w) ws found = elim (Bool-cases (c.id == j)) [
  | inl same ↦
      let here : lookup j ws ≡ some w =
        ap (λ i. lookup i ws) (sym ((==_iff c.id j).0 same)) ∙ found in
      rw (same, here) refl
  | inr other ↦ rw other refl
]

or_started-none : (b : Bool) (timezone : ℕ) (o : Option Running) → or_started b timezone none o ≡ o
or_started-none b timezone none = refl
or_started-none b timezone (some w) = refl

lookup-start_missing :
    (j : ℕ) (b : Bool) (timezone : ℕ) (wanted : Dict CameraConfig) (ws : Dict Running)
    → IsIndex wanted
    → lookup j (start_missing b timezone wanted ws)
      ≡ or_started b timezone (lookup j wanted) (lookup j ws)
unfolding start_missing
lookup-start_missing j b timezone [] ws h = sym (or_started-none b timezone (lookup j ws))
lookup-start_missing j b timezone ((k, c) ∷ wanted) ws h =
    let o : Option Running = lookup c.id ws in
    let step = lookup-start_if j b timezone c o ws refl in
    let rest = lookup-start_missing j b timezone wanted (start_if b timezone c o ws) h.2 in
    rest
    ∙ rw step (elim (Bool-cases (k == j)) [
      | inl same ↦
          let gone : lookup j wanted ≡ none =
            ap (λ i. lookup i wanted) (sym ((==_iff k j).0 same)) ∙ h.1 in
          rw (ap (λ i. i == j) h.0 ∙ same, same, gone)
            (or_started-none b timezone (or_started b timezone (some c) (lookup j ws)))
      | inr other ↦ rw (ap (λ i. i == j) h.0 ∙ other, other) refl
    ])

-- After the workers are reconciled with a site, each camera id has just the worker that its enabled
-- camera calls for: none if there is none, the old one if it was made for this configuration, else a
-- new one, with the site's time zone, if there is a service to feed.
pub reconcile-lookup :
    (j : ℕ) (b : Bool) (site : SiteConfig) (ws : Dict Running)
    → lookup j (reconcile b site ws)
      ≡ or_started b site.timezone
          (lookup j (by_id (enabled_cameras site) []))
          (kept (lookup j (by_id (enabled_cameras site) [])) (lookup j ws))
unfolding reconcile
reconcile-lookup j b site ws =
    let wanted : Dict CameraConfig = by_id (enabled_cameras site) [] in
    let keys : List ℕ = map (λ (e : ℕ × Running). e.0) ws in
    lookup-start_missing j b site.timezone wanted (stop_stale wanted keys ws)
      (by_id-IsIndex (enabled_cameras site) [] tt)
    ∙ ap (or_started b site.timezone (lookup j wanted)) (
        lookup-stop_stale j wanted keys ws ∙ elim (Bool-cases (member j keys)) [
          | inl there ↦ rw there refl
          | inr missing ↦ rw (missing, keys_miss j ws missing) refl
        ])
