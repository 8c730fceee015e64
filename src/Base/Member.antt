-- ===== src/Base/Member.antt =====
-- Membership in a filtered list.
use mathlib.Core.Path.{◌≡◌, sym, ◌∙◌, ap}
use mathlib.Core.Logic.{◌↔◌, inl, inr}
use mathlib.Core.Bool.{Bool, true}
use mathlib.Core.List.{List, [], ◌∷◌, Memᴰ}
use fireme_x.Base.Tests.{Bool-cases}
use fireme_x.Base.Lists.{keep}

module _ {ℓ} {A : Type ℓ} (p : A → Bool) (x : A) where
  mem_of-cons :
      (y : A) (ys xs : List A)
      → p y ≡ true
      → (Memᴰ x ys → Memᴰ x xs × (p x ≡ true))
      → Memᴰ x (y ∷ ys)
      → Memᴰ x (y ∷ xs) × (p x ≡ true)
  mem_of-cons y ys xs h ih (Memᴰ.head e) = (Memᴰ.head e, ap p e ∙ h)
  mem_of-cons y ys xs h ih (Memᴰ.tail m) = (Memᴰ.tail (ih m).0, (ih m).1)

  mem_of-keep : (xs : List A) → Memᴰ x (keep p xs) → Memᴰ x xs × (p x ≡ true)
  mem_of-keep [] m = elim m [ ]
  mem_of-keep (y ∷ xs) m = elim (Bool-cases (p y)) [
    | inl kept ↦ mem_of-cons y (keep p xs) xs kept (mem_of-keep xs) (rw kept at m)
    | inr dropped ↦ let rest = mem_of-keep xs (rw dropped at m) in (Memᴰ.tail rest.0, rest.1)
  ]

  mem_to-keep : (xs : List A) → Memᴰ x xs → p x ≡ true → Memᴰ x (keep p xs)
  mem_to-keep [] m h = elim m [ ]
  mem_to-keep (y ∷ xs) (Memᴰ.head e) h = rw (sym (ap p e) ∙ h) (Memᴰ.head e)
  mem_to-keep (y ∷ xs) (Memᴰ.tail m) h = elim (Bool-cases (p y)) [
    | inl kept ↦ rw kept (Memᴰ.tail (mem_to-keep xs m h))
    | inr dropped ↦ rw dropped (mem_to-keep xs m h)
  ]

  pub mem-keep : (xs : List A) → Memᴰ x (keep p xs) ↔ (Memᴰ x xs × (p x ≡ true))
  mem-keep xs = (mem_of-keep xs, λ h. mem_to-keep xs h.0 h.1)
