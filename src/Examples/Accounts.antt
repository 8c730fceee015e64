-- ===== src/Examples/Accounts.antt =====
-- Runs of the accounts, the sessions and the access checks.
use fireme_x.Base.{
  ℕ, ◌+◌, ◌≤◌, ◌<◌, ◌≡◌, refl, ◌↔◌, ◌⊎◌, Bool, true, false, Option, none, some, [], ◌∷◌, arith,
  length,
}
use fireme_x.Accounts.Text.{text_eq, lower, Text}
use fireme_x.Accounts.Roles.{Role, role_allows}
use fireme_x.Accounts.Users.{
  get_user, find_named, User, Users, new_user, count_admins, delete_user, deleted, attempt, locked,
  accepted, lock_time, find_id,
}
use fireme_x.Accounts.Users.Lockout.{guess, last_time, guess_locks}
use fireme_x.Accounts.Sessions.{Session, Sessions, principal_of, find_session, resolve_session}
use fireme_x.Accounts.Sessions.Revocation.{Live, resolve_session-Live}
use fireme_x.Accounts.Access.{
  check_password, Method, RoutePath, allowed, is_safe, is_password_change, current_user,
  require_role, Store, done, UpdateUserRequest, update_user_route,
}
use fireme_x.Accounts.Access.Gate.{require_role_iff}
use fireme_x.Accounts.Access.Administration.{update_user_route_keeps_admin}

abbrev ann : Text
ann = 97 ∷ 110 ∷ 110 ∷ []

abbrev bob : Text
bob = 98 ∷ 111 ∷ 98 ∷ []

abbrev admin_user : User
admin_user = new_user 1 ann 500 Role.admin none

abbrev viewer_user : User
viewer_user = new_user 2 bob 600 Role.viewer (some ann)

abbrev users : Users
users = admin_user ∷ viewer_user ∷ []

abbrev guessed : User
guessed = guess (10 ∷ 11 ∷ 12 ∷ 13 ∷ 14 ∷ []) viewer_user

guess_locks_example :
    ((now : ℕ) (matches : Bool)
      → now < last_time 10 (11 ∷ 12 ∷ 13 ∷ 14 ∷ []) + lock_time
      → attempt now matches guessed ≡ (locked, guessed))
    × ((now : ℕ)
        → last_time 10 (11 ∷ 12 ∷ 13 ∷ 14 ∷ []) + lock_time ≤ now
        → (attempt now true guessed).0 ≡ accepted)
guess_locks_example =
    guess_locks 10 (11 ∷ 12 ∷ 13 ∷ 14 ∷ []) viewer_user refl (omega arith)
      (refl, (refl, (refl, (refl, (refl, tt)))))

bob_deleted : delete_user bob users ≡ deleted (admin_user ∷ [])
unfolding delete_user text_eq lower
bob_deleted = refl

abbrev session : Session
session = record {
  token_hash = 40;
  user_id = 2;
  csrf_token = 41;
  expires_at = 900;
  last_seen_at = 100;
  user_agent = none;
  ip = none;
}

abbrev admin_session : Session
admin_session = record session { token_hash = 50; user_id = 1 }

abbrev sessions : Sessions
sessions = session ∷ admin_session ∷ []

resolved : (resolve_session 120 40 users sessions).0 ≡ some (principal_of viewer_user, 41)
unfolding resolve_session
resolved = refl

resolve_session-Live_example : Live 120 40 users sessions (principal_of viewer_user) 41
resolve_session-Live_example =
    resolve_session-Live 120 40 users sessions (principal_of viewer_user) 41 resolved

abbrev carl : Text
carl = 99 ∷ 97 ∷ 114 ∷ 108 ∷ []

stored_session : find_session 40 sessions ≡ some session
unfolding find_session
stored_session = refl

bob_gone : find_id 2 (admin_user ∷ []) ≡ none
unfolding find_id
bob_gone = refl

abbrev presented : Option ℕ
presented = some 41

require_role_example :
    (require_role Role.viewer
        (current_user (some (principal_of viewer_user, 41)) Method.other presented RoutePath.other)
      ≡ allowed (principal_of viewer_user))
    ↔ ((principal_of viewer_user ≡ principal_of viewer_user)
        × ((is_safe Method.other ≡ true) ⊎ (presented ≡ some 41))
        × (((principal_of viewer_user).must_change_password ≡ false)
            ⊎ (is_password_change RoutePath.other ≡ true))
        × (role_allows Role.viewer Role.viewer ≡ true))
require_role_example =
    require_role_iff Role.viewer (principal_of viewer_user) (principal_of viewer_user) 41
      Method.other presented RoutePath.other

abbrev hash : Text → ℕ
hash password = length password

abbrev disabling : UpdateUserRequest
disabling = record { role = none; disabled = some true; new_password = none }

abbrev store : Store
store = record { users = users; sessions = sessions }

abbrev store_after : Store
store_after = record {
  users = admin_user ∷ record viewer_user { disabled = true } ∷ [];
  sessions = admin_session ∷ [];
}

bob_disabled : update_user_route hash bob disabling store ≡ done store_after
unfolding update_user_route check_password text_eq lower
bob_disabled = refl

update_user_route_keeps_admin_example : 1 ≤ count_admins store_after.users
update_user_route_keeps_admin_example =
    update_user_route_keeps_admin hash bob disabling store store_after (omega arith) bob_disabled

bob_found : get_user bob users ≡ some viewer_user
unfolding find_named text_eq lower
bob_found = refl

admin_resolved :
    (resolve_session 120 50 store_after.users store_after.sessions).0
    ≡ some (principal_of admin_user, 41)
unfolding resolve_session
admin_resolved = refl
