-- ===== src/Base/LastItems.antt =====
-- The last items of a list, and the bounded queue that keeps them.
use Prim.Native.Nat.{ℕ, zero, suc, ◌-◌, ◌≤◌}
use mathlib.Core.Path.{◌≡◌, refl, sym, ◌∙◌, ap}
use mathlib.Core.Logic.{inl, inr}
use mathlib.Core.List.{List, [], ◌∷◌, ◌++◌}
use native.Mathlib.Omega.{arith}
use fireme_x.Base.Tests.{ltb, ltb→lt, ltb-false→le, Bool-cases}
use fireme_x.Base.Lists.{length, drop, length-append, length-drop}
use fireme_x.Base.Deque.{append, pop_left}

-- the last n items of a list
abbrev pub last_items {ℓ} : {A : Type ℓ} → ℕ → List A → List A
last_items n xs = drop (length xs - n) xs

module _ {ℓ} {A : Type ℓ} where
  pop_left-drop : (k : ℕ) (xs : List A) → pop_left (drop k xs) ≡ drop (suc k) xs
  pop_left-drop zero [] = refl
  pop_left-drop zero (x ∷ xs) = refl
  pop_left-drop (suc k) [] = refl
  pop_left-drop (suc k) (x ∷ xs) = pop_left-drop k xs

  drop-append_le :
      (k : ℕ) (xs : List A) (x : A) → k ≤ length xs → drop k (xs ++ x ∷ []) ≡ drop k xs ++ x ∷ []
  drop-append_le zero xs x h = refl
  drop-append_le (suc k) [] x h = absurd (omega arith)
  drop-append_le (suc k) (y ∷ xs) x h = drop-append_le k xs x (omega arith)

  -- a bounded queue holds the last items of all that was appended.
  pub append-last_items :
      (n : ℕ) (xs : List A) (x : A) → append n (last_items n xs) x ≡ last_items n (xs ++ x ∷ [])
  unfolding append
  append-last_items n xs x =
      let shorter = length-drop (length xs - n) xs in
      let kept = drop-append_le (length xs - n) xs x (omega arith) in
      let longer = length-append (drop (length xs - n) xs) (x ∷ []) in
      let whole = length-append xs (x ∷ []) in
      elim (Bool-cases (ltb n (length (drop (length xs - n) xs ++ x ∷ [])))) [
        | inl full ↦
            let more : suc (length xs - n) ≡ length (xs ++ x ∷ []) - n =
              omega (arith, ltb→lt _ _ full) in
            rw full (
              ap pop_left (sym kept)
              ∙ pop_left-drop (length xs - n) (xs ++ x ∷ [])
              ∙ ap (λ k. drop k (xs ++ x ∷ [])) more)
        | inr room ↦
            let same : length xs - n ≡ length (xs ++ x ∷ []) - n =
              omega (arith, ltb-false→le _ _ room) in
            rw room (sym kept ∙ ap (λ k. drop k (xs ++ x ∷ [])) same)
      ]
