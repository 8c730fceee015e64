-- ===== src/Accounts/Users.antt =====
-- firemex/store.py: the user table and `_authenticate`. A table is the list of its rows in the order of
-- their ids, without created_at. The hash of a password (scrypt with a random salt) and its verification
-- are parameters, and so is the time, in ticks of a second.
use fireme_x.Base.{
  ℕ, suc, ◌+◌, ◌≤◌, ◌≡◌, Bool, true, false, not, ◌&&◌, ◌||◌, Option, none, some, List, [], ◌∷◌,
  ◌++◌, ltb, leb, ◌==◌, if◌then◌else◌, keep, count_if, is_some,
}
use fireme_x.Accounts.Text.{Text, text_eq, lower}
use fireme_x.Accounts.Roles.{Role, is_admin}
pub mod Lockout
pub mod Admins

pub record User : Type 0 where
  pub id : ℕ
  pub username : Text
  pub password_hash : ℕ
  pub role : Role
  pub must_change_password : Bool
  pub disabled : Bool
  pub last_login_at : Option ℕ
  pub failed_logins : ℕ
  pub locked_until : Option ℕ
  pub created_by : Option Text

abbrev pub Users : Type 0
Users = List User

-- `select(UserRecord).where(UserRecord.username == name)`, the first row
unfoldable pub find_named : Text → Users → Option User
find_named name [] = none
find_named name (u ∷ us) =
    let rest = find_named name us in if text_eq u.username name then some u else rest

-- `session.get(UserRecord, id)`
unfoldable pub find_id : ℕ → Users → Option User
find_id k [] = none
find_id k (u ∷ us) = let rest = find_id k us in if u.id == k then some u else rest

-- `_get_user`
abbrev pub get_user : Text → Users → Option User
get_user name us = find_named (lower name) us

-- the attributes of the row set, and committed
unfoldable pub change_named : Text → (User → User) → Users → Users
change_named name f [] = []
change_named name f (u ∷ us) =
    let rest = change_named name f us in if text_eq u.username name then f u ∷ us else u ∷ rest

-- `_update_user`: `none` where there is no such user
unfoldable pub update_user : Text → (User → User) → Users → Option Users
unfolding find_named change_named
update_user name f us =
    if is_some (get_user name us) then some (change_named (lower name) f us) else none

-- `set_password`, given the hash of the new password
abbrev pub with_password : ℕ → User → User
with_password hash u = record u {
  password_hash = hash;
  must_change_password = false;
  failed_logins = 0;
  locked_until = none;
}

unfoldable pub set_password : Text → ℕ → Users → Option Users
unfolding update_user
set_password name hash us = update_user name (with_password hash) us

-- the row of a new user
abbrev pub new_user : ℕ → Text → ℕ → Role → Option Text → User
new_user id name hash role creator = record {
  id = id;
  username = name;
  password_hash = hash;
  role = role;
  must_change_password = false;
  disabled = false;
  last_login_at = none;
  failed_logins = 0;
  locked_until = none;
  created_by = creator;
}

-- `_create_user`, with the id that the database gives: `none` is the ValueError of a taken name
unfoldable pub create_user : ℕ → Text → ℕ → Role → Option Text → Users → Option Users
unfolding find_named
create_user id name hash role creator us =
    if is_some (get_user name us)
    then none
    else some (us ++ new_user id name hash role creator ∷ [])

-- `_ensure_default_admin`: whether it seeded, and the table
unfoldable pub ensure_default_admin : ℕ → Text → ℕ → Text → Users → Bool × Users
ensure_default_admin id name hash system [] = (
  true,
  record (new_user id name hash Role.admin (some system)) { must_change_password = true } ∷ [],
)
ensure_default_admin id name hash system (u ∷ us) = (false, u ∷ us)

abbrev pub active_admin : User → Bool
active_admin u = is_admin u.role && not u.disabled

-- `_count_active_admins`, with none left out and with one name left out
abbrev pub count_admins : Users → ℕ
count_admins us = count_if active_admin us

abbrev pub count_admins_but : Text → Users → ℕ
count_admins_but name us = count_if (λ u. active_admin u && not (text_eq u.username name)) us

unfoldable pub remove_named : Text → Users → Users
remove_named name [] = []
remove_named name (u ∷ us) =
    let rest = remove_named name us in if text_eq u.username name then us else u ∷ rest

pub data Deletion : Type 0 where
  deleted : Users → Deletion
  not_found : Deletion
  last_administrator : Deletion

delete_found : Text → Users → Option User → Deletion
unfolding remove_named
delete_found name us none = not_found
delete_found name us (some u) =
    if is_admin u.role && leb (count_admins us) 1
    then last_administrator
    else deleted (remove_named name us)

-- `_delete_user`
unfoldable pub delete_user : Text → Users → Deletion
unfolding delete_found find_named
delete_user name us = delete_found (lower name) us (get_user name us)

pub data Verdict : Type 0 where
  invalid_credentials user_disabled locked accepted : Verdict

-- five minutes
abbrev pub lock_time : ℕ
lock_time = 300

abbrev pub is_locked : Option ℕ → ℕ → Bool
is_locked none now = false
is_locked (some until) now = ltb now until

-- the row after a wrong password
unfoldable pub failed_attempt : ℕ → User → User
failed_attempt now u =
    if leb 5 (u.failed_logins + 1)
    then record u { failed_logins = 0; locked_until = some (now + lock_time) }
    else record u { failed_logins = u.failed_logins + 1 }

unfoldable pub passed_attempt : ℕ → User → User
passed_attempt now u = record u { failed_logins = 0; locked_until = none; last_login_at = some now }

-- the checks of `_authenticate` on the row that was found, given whether the password matches
unfoldable pub attempt : ℕ → Bool → User → Verdict × User
unfolding failed_attempt passed_attempt
attempt now matches u =
    if u.disabled
    then (user_disabled, u)
    else if is_locked u.locked_until now
    then (locked, u)
    else if matches
    then (accepted, passed_attempt now u)
    else (invalid_credentials, failed_attempt now u)

module _ (verify : Text → ℕ → Bool) where
  unfoldable pub authenticate_row : ℕ → Text → Text → Users → Option User → Verdict × Users
  unfolding attempt change_named
  authenticate_row now name password us none = (invalid_credentials, us)
  authenticate_row now name password us (some u) =
      let (verdict, u') = attempt now (verify password u.password_hash) u in
      (verdict, change_named name (λ _. u') us)

  -- `_authenticate`: the verdict and the table; the accepted user is the row of that name
  unfoldable pub authenticate : ℕ → Text → Text → Users → Verdict × Users
  unfolding authenticate_row find_named
  authenticate now name password us =
      authenticate_row now (lower name) password us (get_user name us)
