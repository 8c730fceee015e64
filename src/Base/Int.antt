-- ===== src/Base/Int.antt =====
-- Signed whole numbers over the native numbers, under the library's names, and their quotients by a
-- positive number, rounded down.
use Prim.Native.Nat.{ℕ, zero, suc, ◌+◌, ◌-◌, ◌*◌, ◌/◌, ◌≤◌}
use mathlib.Core.Path.{◌≡◌}
use mathlib.Core.Bool.{Bool}
use native.Mathlib.Omega.{arith}
use native.Mathlib.Nat.{div-add-mod', div-zero, le-div_iff_mul-le, mul-le-mul_right}
use fireme_x.Base.Tests.{ltb, leb, if◌then◌else◌}

-- `negsuc n` is -(n + 1)
pub data ℤ : Type 0 where
  pos : ℕ → ℤ
  negsuc : ℕ → ℤ

abbrev pub pos_part : ℤ → ℕ
pos_part (pos n) = n
pos_part (negsuc n) = 0

abbrev pub neg_part : ℤ → ℕ
neg_part (pos n) = 0
neg_part (negsuc n) = suc n

-- a - b, as an integer
abbrev pub sub_ℕ : ℕ → ℕ → ℤ
sub_ℕ a b = if leb b a then pos (a - b) else negsuc (b - a - 1)

infixl 65 ◌+ℤ◌ ◌-ℤ◌
infixl 70 ◌*ℤ◌
infix 50 ◌≤ℤ◌
unfoldable pub ◌+ℤ◌ : ℤ → ℤ → ℤ
a +ℤ b = sub_ℕ (pos_part a + pos_part b) (neg_part a + neg_part b)

unfoldable pub ◌-ℤ◌ : ℤ → ℤ → ℤ
a -ℤ b = sub_ℕ (pos_part a + neg_part b) (neg_part a + pos_part b)

unfoldable pub ◌*ℤ◌ : ℤ → ℤ → ℤ
a *ℤ b =
    sub_ℕ (pos_part a * pos_part b + neg_part a * neg_part b)
      (pos_part a * neg_part b + neg_part a * pos_part b)

-- a times a number, keeping its sign
unfoldable pub scale_by : ℤ → ℕ → ℤ
scale_by (pos n) k = pos (n * k)
scale_by (negsuc n) k = sub_ℕ 0 (suc n * k)

-- the quotient by a number that is not 0, rounded down
unfoldable pub div_by : ℤ → ℕ → ℤ
div_by (pos n) d = pos (n / d)
div_by (negsuc n) d = negsuc (n / d)

abbrev pub ◌≤ℤ◌ : ℤ → ℤ → Type 0
a ≤ℤ b = pos_part a + neg_part b ≤ pos_part b + neg_part a

abbrev pub ltb_ℤ : ℤ → ℤ → Bool
ltb_ℤ a b = ltb (pos_part a + neg_part b) (pos_part b + neg_part a)

abbrev pub leb_ℤ : ℤ → ℤ → Bool
leb_ℤ a b = leb (pos_part a + neg_part b) (pos_part b + neg_part a)

abbrev pub max_ℤ : ℤ → ℤ → ℤ
max_ℤ a b = if leb_ℤ a b then b else a

abbrev pub min_ℤ : ℤ → ℤ → ℤ
min_ℤ a b = if leb_ℤ a b then a else b

-- One lemma for each operation lets `omega` work with the operations shut.
pub +ℤ_parts :
    (a b : ℤ)
    → pos_part (a +ℤ b) + neg_part a + neg_part b ≡ neg_part (a +ℤ b) + pos_part a + pos_part b
unfolding ◌+ℤ◌
+ℤ_parts a b = ground arith

pub -ℤ_parts :
    (a b : ℤ)
    → pos_part (a -ℤ b) + neg_part a + pos_part b ≡ neg_part (a -ℤ b) + pos_part a + neg_part b
unfolding ◌-ℤ◌
-ℤ_parts a b = ground arith

pub div_mono : (n m d : ℕ) → n ≤ m → n / d ≤ m / d
div_mono n m zero h = omega (arith, div-zero n, div-zero m)
div_mono n m (suc d) h =
    let low : n / suc d * suc d ≤ m = omega (arith, div-add-mod' n (suc d)) in
    (le-div_iff_mul-le (omega arith)).1 low

-- quotients and multiples keep the order
pub div_by_mono : (a b : ℤ) (d : ℕ) → a ≤ℤ b → div_by a d ≤ℤ div_by b d
unfolding div_by
div_by_mono (pos n) (pos m) d h = omega (arith, div_mono n m d (omega arith))
div_by_mono (pos n) (negsuc m) d h = absurd (omega arith)
div_by_mono (negsuc n) (pos m) d h = omega arith
div_by_mono (negsuc n) (negsuc m) d h = omega (arith, div_mono m n d (omega arith))

pub scale_by_mono : (a b : ℤ) (d : ℕ) → a ≤ℤ b → scale_by a d ≤ℤ scale_by b d
unfolding scale_by
scale_by_mono (pos n) (pos m) d h = ground (arith, mul-le-mul_right {m = n} {n = m} d)
scale_by_mono (pos n) (negsuc m) d h = absurd (omega arith)
scale_by_mono (negsuc n) (pos m) d h = ground arith
scale_by_mono (negsuc n) (negsuc m) d h = ground (arith, mul-le-mul_right {m = suc m} {n = suc n} d)

pub -ℤ_mono : (a b c : ℤ) → a ≤ℤ b → a -ℤ c ≤ℤ b -ℤ c
-ℤ_mono a b c h = omega (arith, -ℤ_parts a c, -ℤ_parts b c)

-- a half taken off and put on
pub half_mono : (c h : ℤ) → pos 0 ≤ℤ h → c -ℤ div_by h 2 ≤ℤ c +ℤ div_by h 2
unfolding div_by
half_mono c (pos n) h = omega (arith, -ℤ_parts c (div_by (pos n) 2), +ℤ_parts c (div_by (pos n) 2))
half_mono c (negsuc n) h = absurd (omega arith)
