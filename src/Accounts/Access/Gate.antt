-- ===== src/Accounts/Access/Gate.antt =====
-- firemex/api/deps.py: what `current_user` and `require_role` let through.
use fireme_x.Base.{ℕ, ◌≡◌, ◌↔◌, ◌⊎◌, true, false, Option, some, arith, ==_iff}
use fireme_x.Accounts.Roles.{Role, role_allows}
use fireme_x.Accounts.Sessions.{Principal}
use fireme_x.Accounts.Access.{
  Method, RoutePath, allowed, is_safe, is_password_change, current_user, require_role,
}

-- Where a request's session resolves to q, a route that requires a role lets it through as p exactly where
-- p is q, the method is safe or the header carries the CSRF token of that session, the path is one of the
-- three of a password change unless p need not change the password, and p's role allows the required one.
pub require_role_iff :
    (required : Role) (p q : Principal) (csrf : ℕ) (method : Method) (header : Option ℕ)
    (path : RoutePath)
    → (require_role required (current_user (some (q, csrf)) method header path) ≡ allowed p) ↔ (
        (p ≡ q)
        × ((is_safe method ≡ true) ⊎ (header ≡ some csrf))
        × ((p.must_change_password ≡ false) ⊎ (is_password_change path ≡ true))
        × (role_allows p.role required ≡ true))
unfolding current_user require_role
require_role_iff required p q csrf method header path =
    (λ e. ground (arith, ==_iff csrf), λ h. ground (arith, ==_iff csrf))
