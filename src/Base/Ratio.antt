-- ===== src/Base/Ratio.antt =====
-- Quotients of non-negative numbers, compared exactly by cross multiplication: the means, ratios and
-- overlap fractions that the program computes in floating point.
use Prim.Native.Nat.{ℕ, ◌+◌, ◌*◌, ◌/◌, ◌%◌, ◌<◌, ◌≤◌}
use mathlib.Core.Bool.{Bool}
use mathlib.Core.List.{List, [], ◌∷◌}
use mathlib.Core.Path.{◌≡◌, ap}
use native.Mathlib.Nat.{div-le_of_le-mul, div-add-mod, mul-mod_right, mul-div_cancel_left}
use native.Mathlib.Omega.{arith}
use fireme_x.Base.Tests.{leb, ltb, ◌==◌, if◌then◌else◌}
use fireme_x.Base.Lists.{length}

-- num / den, with den > 0 wherever the program divides
pub record Ratio : Type 0 where
  pub num : ℕ
  pub den : ℕ

-- a >= b
abbrev pub ge_ratio : Ratio → Ratio → Bool
ge_ratio a b = leb (b.num * a.den) (a.num * b.den)

-- a / b
abbrev pub div_ratio : Ratio → Ratio → Ratio
div_ratio a b = record { num = a.num * b.den; den = a.den * b.num }

abbrev pub mul_ratio : Ratio → Ratio → Ratio
mul_ratio a b = record { num = a.num * b.num; den = a.den * b.den }

pub sum : List ℕ → ℕ
sum [] = 0
sum (x ∷ xs) = x + sum xs

-- `statistics.fmean`
pub fmean : List ℕ → Ratio
fmean xs = record { num = sum xs; den = length xs }

-- `round(n / d)`: to the nearest whole number, a half to the even one
pub round_div : ℕ → ℕ → ℕ
round_div n d =
    let q = n / d in
    let twice = 2 * (n % d) in
    if ltb twice d then q else if ltb d twice then q + 1 else if q % 2 == 0 then q else q + 1

-- the quotient is below k, or it is k with nothing left
quotient_at : (n d k : ℕ) → 0 < d → n ≤ d * k → n / d ≤ k × (n / d ≡ k → n % d ≡ 0)
quotient_at n d k pos h =
    (div-le_of_le-mul d h, λ e. omega (arith, div-add-mod n d, ap (λ (q : ℕ). d * q) e))

-- rounding does not pass a whole number that the quotient does not pass
pub round_div-le : (n d k : ℕ) → 0 < d → n ≤ d * k → round_div n d ≤ k
unfolding round_div
round_div-le n d k pos h = ground (arith, quotient_at n d k pos h)

pub round_div-mul : (d k : ℕ) → 0 < d → round_div (d * k) d ≡ k
unfolding round_div
round_div-mul d k pos = ground (arith, mul-mod_right d k, mul-div_cancel_left k pos)
