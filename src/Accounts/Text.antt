-- ===== src/Accounts/Text.antt =====
-- Texts as lists of code points, with their equality and lower case. Lower case is that of ASCII:
-- user names are ASCII once firemex/auth.py has validated them.
use Prim.Native.String.{String}
use Prim.Native.Char.{code}
use fireme_x.Base.{
  ℕ, ◌+◌, ◌≡◌, refl, ◌↔◌, Bool, true, false, ◌&&◌, List, [], ◌∷◌, map, arith, leb, ◌==◌,
  if◌then◌else◌,
}

abbrev pub Text : Type 0
Text = List ℕ

unfoldable pub text_eq : Text → Text → Bool
text_eq [] [] = true
text_eq (c ∷ s) (d ∷ t) = let rest = text_eq s t in (c == d) && rest
text_eq _ _ = false

abbrev lower_code : ℕ → ℕ
lower_code c = if leb 65 c && leb c 90 then c + 32 else c

-- `str.lower`
unfoldable pub lower : Text → Text
lower = map lower_code

pub text_eq_iff : (s t : Text) → (text_eq s t ≡ true) ↔ (s ≡ t)
unfolding text_eq
text_eq_iff [] [] = (λ h. refl, λ h. refl)
text_eq_iff [] (d ∷ t) = (λ h. cc, λ h. cc)
text_eq_iff (c ∷ s) [] = (λ h. cc, λ h. cc)
text_eq_iff (c ∷ s) (d ∷ t) =
    (λ h. ground (arith, text_eq_iff s t), λ h. ground (arith, text_eq_iff s t))

lower_code_twice : (c : ℕ) → lower_code (lower_code c) ≡ lower_code c
lower_code_twice c = ground arith

pub lower-lower : (s : Text) → lower (lower s) ≡ lower s
unfolding lower
lower-lower [] = refl
lower-lower (c ∷ s) = λ i. lower_code_twice c i ∷ lower-lower s i

-- the code points of a literal
abbrev pub codes : String → Text
codes String.[] = []
codes (String.◌∷◌ c s) = code c ∷ codes s
