-- ===== src/Accounts/Roles.antt =====
-- firemex/auth.py: roles, their ranks, and the length floor of passwords.
use fireme_x.Base.{
  ℕ, ◌≡◌, refl, ◌↔◌, Bool, true, false, Option, none, some, arith, ltb, leb, if◌then◌else◌, length,
}
use fireme_x.Accounts.Text.{Text}

-- one of ROLES, or any other text
pub data Role : Type 0 where
  viewer operator admin unknown : Role

abbrev pub is_admin : Role → Bool
is_admin Role.admin = true
is_admin _ = false

-- `body.role in auth.ROLES`
abbrev pub is_role : Role → Bool
is_role Role.unknown = false
is_role _ = true

-- `ROLE_RANK.get(role, -1)`, one higher
abbrev held_rank : Role → ℕ
held_rank Role.viewer = 1
held_rank Role.operator = 2
held_rank Role.admin = 3
held_rank Role.unknown = 0

-- `ROLE_RANK.get(required, 99)`, one higher
abbrev required_rank : Role → ℕ
required_rank Role.viewer = 1
required_rank Role.operator = 2
required_rank Role.admin = 3
required_rank Role.unknown = 100

unfoldable pub role_allows : Role → Role → Bool
role_allows role required = leb (required_rank required) (held_rank role)

-- `validate_password`: `none` is an AuthError
unfoldable pub validate_password : Text → Option Text
validate_password p = if ltb (length p) 8 then none else some p

-- the tiers, the weaker role first
pub data Below : Role → Role → Type 0 where
  same : (r : Role) → Below r r
  viewer_operator : Below Role.viewer Role.operator
  viewer_admin : Below Role.viewer Role.admin
  operator_admin : Below Role.operator Role.admin

allows-Below :
    (role required : Role)
    → is_role required ≡ true
    → role_allows role required ≡ true
    → Below required role
unfolding role_allows
allows-Below Role.viewer Role.viewer k h = same Role.viewer
allows-Below Role.operator Role.viewer k h = viewer_operator
allows-Below Role.operator Role.operator k h = same Role.operator
allows-Below Role.admin Role.viewer k h = viewer_admin
allows-Below Role.admin Role.operator k h = operator_admin
allows-Below Role.admin Role.admin k h = same Role.admin
allows-Below _ _ k h = absurd (ground arith)

Below-allows :
    (role required : Role)
    → is_role required ≡ true
    → Below required role
    → role_allows role required ≡ true
unfolding role_allows
Below-allows role required k (same r) = ground arith
Below-allows role required k viewer_operator = refl
Below-allows role required k viewer_admin = refl
Below-allows role required k operator_admin = refl

allowed_known : (role required : Role) → role_allows role required ≡ true → is_role required ≡ true
unfolding role_allows
allowed_known role required h = ground arith

-- A role satisfies a requirement exactly when the requirement is one of the three roles and the same or
-- a lower tier; an unknown role satisfies none, and an unknown requirement is never satisfied.
pub role_allows_iff :
    (role required : Role)
    → (role_allows role required ≡ true) ↔ ((is_role required ≡ true) × Below required role)
role_allows_iff role required = (
  λ h. let known = allowed_known role required h in (known, allows-Below role required known h),
  λ h. Below-allows role required h.0 h.1,
)
