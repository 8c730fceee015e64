-- ===== src/Notify/Cooldown.antt =====
-- firemex/notify/base.py: `CooldownStore`. Times are in ticks, and `now - last < cooldown` is written as
-- a sum, since a clock may step back.
use fireme_x.Base.{
  ℕ, ◌+◌, ◌≤◌, ◌≡◌, Bool, true, false, ◌&&◌, Option, none, some, List, [], ◌∷◌, arith, ltb,
  if◌then◌else◌, Bool-cases, inl, inr, ◌==◌,
}
use mathlib.Core.Path.{subst}
use fireme_x.Base.{==_iff}
use fireme_x.Base.Dict.{Dict, lookup, insert, erase, lookup-insert}

abbrev within : Option ℕ → ℕ → ℕ → Bool
within none now cooldown = false
within (some last) now cooldown = ltb now (last + cooldown)

-- `should_alert`
unfoldable pub should_alert : ℕ → ℕ → ℕ → Dict ℕ → Bool × Dict ℕ
should_alert camera now cooldown seen =
    if within (lookup camera seen) now cooldown
    then (false, seen)
    else (true, insert camera now seen)

-- `clear`
unfoldable pub clear : ℕ → Dict ℕ → Dict ℕ
clear camera seen = erase camera seen

-- a question to the store: a camera and the time
abbrev pub Question : Type 0
Question = ℕ × ℕ

-- the times at which a list of questions was answered with an alert for one camera
abbrev pub alerts : ℕ → ℕ → List Question → Dict ℕ → List ℕ
alerts cooldown camera [] seen = []
alerts cooldown camera ((c, now) ∷ qs) seen =
    let (allowed, seen') = should_alert c now cooldown seen in
    let rest = alerts cooldown camera qs seen' in
    if allowed && (c == camera) then now ∷ rest else rest

-- each time is at least the cooldown after the one before it
abbrev pub Spaced : ℕ → Option ℕ → List ℕ → Type 0
Spaced cooldown last [] = Unit
Spaced cooldown none (t ∷ ts) = Spaced cooldown (some t) ts
Spaced cooldown (some last) (t ∷ ts) = (last + cooldown ≤ t) × Spaced cooldown (some t) ts

Spaced-cons :
    (cooldown now : ℕ) (last : Option ℕ) (ts : List ℕ)
    → within last now cooldown ≡ false
    → Spaced cooldown (some now) ts
    → Spaced cooldown last (now ∷ ts)
Spaced-cons cooldown now none ts h s = s
Spaced-cons cooldown now (some last) ts h s = (ground arith, s)

-- Whatever cameras ask the store for an alert, and at whatever times, the alerts that it allows for one
-- camera are at least the cooldown apart, and the first of them is at least the cooldown after the
-- alert that the store already held for that camera.
pub alerts-Spaced :
    (cooldown camera : ℕ) (qs : List Question) (seen : Dict ℕ)
    → Spaced cooldown (lookup camera seen) (alerts cooldown camera qs seen)
unfolding should_alert
alerts-Spaced cooldown camera [] seen = tt
alerts-Spaced cooldown camera ((c, now) ∷ qs) seen =
    elim (Bool-cases (within (lookup c seen) now cooldown)) [
      | inl held ↦ rw held (alerts-Spaced cooldown camera qs seen)
      | inr free ↦
          let ts : List ℕ = alerts cooldown camera qs (insert c now seen) in
          let ih : Spaced cooldown (if c == camera then some now else lookup camera seen) ts =
            rw (lookup-insert camera c now seen) at
              (alerts-Spaced cooldown camera qs (insert c now seen)) in
          rw free (elim (Bool-cases (c == camera)) [
            | inl same ↦
                let key : c ≡ camera = (==_iff c camera).0 same in
                rw same (
                  Spaced-cons cooldown now (lookup camera seen) ts
                    (subst (λ k. within (lookup k seen) now cooldown ≡ false) key free)
                    (rw same at ih))
            | inr other ↦ rw other (rw other at ih)
          ])
    ]
