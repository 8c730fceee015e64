-- ===== src/Base/Deque.antt =====
-- `collections.deque`: a queue with the oldest item first, with `maxlen`, and the loop
-- `while q and old(q[0]): q.popleft()`.
use Prim.Native.Nat.{ℕ, ◌-◌, ◌≤◌, ◌<◌}
use mathlib.Core.Path.{◌≡◌, refl}
use mathlib.Core.Bool.{Bool, false}
use mathlib.Core.Option.{some}
use mathlib.Core.List.{List, [], ◌∷◌, ◌++◌}
use native.Mathlib.Omega.{arith}
use fireme_x.Base.Tests.{ltb, if◌then◌else◌}
use fireme_x.Base.Lists.{All, length, drop, last?, length-append, last?-append, All-append}

module _ {ℓ} {A : Type ℓ} where
  -- `popleft` on a queue that is not empty
  abbrev pub pop_left : List A → List A
  pop_left [] = []
  pop_left (x ∷ xs) = xs

  -- `q.append(x)` on a deque with `maxlen = n`: the oldest item leaves a full queue
  unfoldable pub append : ℕ → List A → A → List A
  append n q x = let grown = q ++ x ∷ [] in if ltb n (length grown) then pop_left grown else grown

  -- `while q and old(q[0]): q.popleft()`
  unfoldable pub drop_while : (A → Bool) → List A → List A
  drop_while old [] = []
  drop_while old (x ∷ xs) = let rest = drop_while old xs in if old x then rest else x ∷ xs

  pub length-pop_left : (q : List A) → length (pop_left q) ≡ length q - 1
  length-pop_left [] = omega arith
  length-pop_left (x ∷ q) = omega arith

  pub length-append_le : (n : ℕ) (q : List A) (x : A) → length q ≤ n → length (append n q x) ≤ n
  unfolding append
  length-append_le n q x h = ground (arith, length-append q (x ∷ []), length-pop_left (q ++ x ∷ []))

  pop_left-eq-drop : (q : List A) → pop_left q ≡ drop 1 q
  pop_left-eq-drop [] = refl
  pop_left-eq-drop (x ∷ q) = refl

  -- the newest item is the one just appended
  pub last?-append_bounded : (n : ℕ) (q : List A) (x : A) → 0 < n → last? (append n q x) ≡ some x
  unfolding append
  last?-append_bounded n [] x h = ground arith
  last?-append_bounded n (y ∷ q) x h = ground (arith, last?-append (y ∷ q) x, last?-append q x)

  pub last?-drop_while :
      (old : A → Bool) (q : List A) (x : A)
      → last? q ≡ some x
      → old x ≡ false
      → last? (drop_while old q) ≡ some x
  unfolding drop_while
  last?-drop_while old [] x h k = h
  last?-drop_while old (y ∷ []) x h k = ground arith
  last?-drop_while old (y ∷ z ∷ q) x h k = ground (arith, last?-drop_while old (z ∷ q) x h k)

  pub length-drop_while_le : (old : A → Bool) (q : List A) → length (drop_while old q) ≤ length q
  unfolding drop_while
  length-drop_while_le old [] = omega arith
  length-drop_while_le old (x ∷ q) = ground (arith, length-drop_while_le old q)

module _ {ℓ κ} {A : Type ℓ} (P : A → Type κ) where
  All-pop_left : (q : List A) → All P q → All P (pop_left q)
  All-pop_left [] h = h
  All-pop_left (x ∷ q) h = h.1

  pub append-All : (n : ℕ) (q : List A) (x : A) → All P q → P x → All P (append n q x)
  unfolding append
  append-All n q x h k =
      ground (arith, All-append P q (x ∷ []) h (k, tt), All-pop_left (q ++ x ∷ []))

  pub drop_while-All : (old : A → Bool) (q : List A) → All P q → All P (drop_while old q)
  unfolding drop_while
  drop_while-All old [] h = h
  drop_while-All old (x ∷ q) h = ground (arith, drop_while-All old q h.1)
