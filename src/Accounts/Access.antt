-- ===== src/Accounts/Access.antt =====
-- firemex/api/deps.py and firemex/api/routes_users.py: who may call a route, and the administration of
-- users. A CSRF token is a number (never an empty text); the hash of a password is a parameter. A route
-- runs as one step: other requests come before it or after it.
use fireme_x.Base.{
  ℕ, ◌+◌, Bool, true, false, not, ◌&&◌, ◌||◌, Option, none, some, List, [], ◌∷◌, ltb, leb, ◌==◌,
  if◌then◌else◌, is_some,
}
use fireme_x.Accounts.Text.{Text, text_eq, lower}
use fireme_x.Accounts.Roles.{Role, is_admin, is_role, role_allows, validate_password}
use fireme_x.Accounts.Users.{
  User, Users, get_user, find_named, count_admins_but, change_named, update_user, delete_user,
  Deletion,
}
use fireme_x.Accounts.Sessions.{Sessions, Principal, delete_user_sessions}
pub mod Gate
pub mod Administration

pub data Method : Type 0 where
  get head options other : Method

-- `request.method in SAFE_METHODS`
abbrev pub is_safe : Method → Bool
is_safe Method.other = false
is_safe _ = true

-- the paths of `_is_password_change`, and any other one
pub data RoutePath : Type 0 where
  auth_password auth_me auth_logout other : RoutePath

abbrev pub is_password_change : RoutePath → Bool
is_password_change RoutePath.other = false
is_password_change _ = true

pub data Access : Type 0 where
  allowed : Principal → Access
  unauthorized : Access
  invalid_csrf : Access
  password_change_required : Access
  role_required : Access

-- `csrf_matches`
abbrev pub csrf_matches : ℕ → Option ℕ → Bool
csrf_matches expected none = false
csrf_matches expected (some presented) = expected == presented

-- `current_user`, given what the session cookie resolves to
unfoldable pub current_user : Option (Principal × ℕ) → Method → Option ℕ → RoutePath → Access
current_user none method header path = unauthorized
current_user (some (principal, csrf)) method header path =
    if not (is_safe method) && not (csrf_matches csrf header)
    then invalid_csrf
    else if principal.must_change_password && not (is_password_change path)
    then password_change_required
    else allowed principal

-- the dependency that `require_role` makes
unfoldable pub require_role : Role → Access → Access
require_role required (allowed principal) =
    if role_allows principal.role required then allowed principal else role_required
require_role required denied = denied

pub record Store : Type 0 where
  pub users : Users
  pub sessions : Sessions

-- a response: the store after it, or the HTTPException
pub data Reply : Type 0 where
  done : Store → Reply
  bad_request not_found conflict : Reply

pub record UpdateUserRequest : Type 0 where
  pub role : Option Role
  pub disabled : Option Bool
  pub new_password : Option Text

-- `_assert_another_admin_remains` as a test
abbrev pub another_admin_remains : Text → Users → Bool
another_admin_remains name us = not (ltb (count_admins_but (lower name) us) 1)

pub data Check : Type 0 where
  passed bad conflicting : Check

abbrev pub and_then : Check → Check → Check
and_then Check.passed c = c
and_then c _ = c

abbrev pub check_role : User → Option Role → Users → Check
check_role target none us = Check.passed
check_role target (some r) us =
    if not (is_role r)
    then Check.bad
    else if is_admin target.role
        && not (is_admin r)
        && not (another_admin_remains target.username us)
    then Check.conflicting
    else Check.passed

abbrev pub check_disabled : User → Option Bool → Users → Check
check_disabled target none us = Check.passed
check_disabled target (some d) us =
    if d && is_admin target.role && not (another_admin_remains target.username us)
    then Check.conflicting
    else Check.passed

unfoldable pub check_password : Option Text → Check
unfolding validate_password
check_password none = Check.passed
check_password (some p) = if is_some (validate_password p) then Check.passed else Check.bad

abbrev pub check_fields : UpdateUserRequest → Check
check_fields body =
    if is_some body.role || is_some body.disabled || is_some body.new_password
    then Check.passed
    else Check.bad

abbrev pub set_role : Option Role → User → User
set_role none u = u
set_role (some r) u = record u { role = r }

abbrev pub set_disabled : Option Bool → User → User
set_disabled none u = u
set_disabled (some d) u = record u { disabled = d }

-- `fields.get("disabled")` as a test
abbrev pub is_disabling : Option Bool → Bool
is_disabling none = false
is_disabling (some d) = d

-- whether the sessions of the user are revoked
abbrev pub revokes : UpdateUserRequest → Bool
revokes body = is_some body.new_password || (is_some body.role || is_disabling body.disabled)

module _ (hash_password : Text → ℕ) where
  abbrev set_temporary : Option Text → User → User
  set_temporary none u = u
  set_temporary (some p) u = record u {
    password_hash = hash_password p;
    must_change_password = true;
    failed_logins = 0;
    locked_until = none;
  }

  -- `fields` set on the row
  abbrev pub set_fields : UpdateUserRequest → User → User
  set_fields body u =
      set_temporary body.new_password (set_disabled body.disabled (set_role body.role u))

  save : User → UpdateUserRequest → Store → Check → Reply
  unfolding change_named delete_user_sessions
  save target body st Check.bad = bad_request
  save target body st Check.conflicting = conflict
  save target body st Check.passed = done record {
    users = change_named (lower target.username) (set_fields body) st.users;
    sessions = if revokes body then (delete_user_sessions target.id st.sessions).1 else st.sessions;
  }

  update_found : UpdateUserRequest → Store → Option User → Reply
  unfolding save check_password
  update_found body st none = not_found
  update_found body st (some target) = save target body st (
      and_then (check_role target body.role st.users) (
        and_then (check_disabled target body.disabled st.users)
          (and_then (check_password body.new_password) (check_fields body))))

  -- the route `update_user`
  unfoldable pub update_user_route : Text → UpdateUserRequest → Store → Reply
  unfolding update_found find_named check_password
  update_user_route name body st = update_found body st (get_user name st.users)

-- the reply to what `delete_user` of the store did
abbrev pub deletion_reply : Sessions → Deletion → Reply
deletion_reply ss (Deletion.deleted us) = done record { users = us; sessions = ss }
deletion_reply ss Deletion.not_found = not_found
deletion_reply ss Deletion.last_administrator = conflict

-- the route `delete_user`
unfoldable pub delete_user_route : Principal → Text → Store → Reply
unfolding delete_user
delete_user_route principal name st =
    if text_eq (lower name) principal.username
    then bad_request
    else deletion_reply st.sessions (delete_user name st.users)
