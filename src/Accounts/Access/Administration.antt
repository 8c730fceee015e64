-- ===== src/Accounts/Access/Administration.antt =====
-- firemex/api/routes_users.py: what a change of a user leaves behind.
use fireme_x.Base.{
  ◌∙◌, ap, ℕ, ◌+◌, ◌≤◌, ◌≡◌, refl, ◌≢◌, Bool, true, false, some, [], ◌∷◌, arith, if◌then◌else◌,
  Bool-cases, Option-cases, inl, inr,
}
use fireme_x.Accounts.Text.{lower-lower, text_eq_iff, Text, text_eq, lower}
use fireme_x.Accounts.Users.{
  User, Users, find_named, get_user, change_named, active_admin, count_admins, count_admins_but,
}
use fireme_x.Accounts.Sessions.{resolve_session, delete_user_sessions}
use fireme_x.Accounts.Sessions.Revocation.{delete_user_sessions_revokes}
use fireme_x.Accounts.Access.{
  delete_user_sessions, Principal, another_admin_remains, check_disabled, Check, check_role,
  UpdateUserRequest, Store, done, update_user_route, update_found, save, set_fields, revokes,
}

abbrev one_if : Bool → ℕ
one_if b = if b then 1 else 0

count_admins-change_named :
    (name : Text) (f : User → User) (us : Users) (u : User)
    → find_named name us ≡ some u
    → count_admins (change_named name f us) + one_if (active_admin u)
      ≡ count_admins us + one_if (active_admin (f u))
unfolding find_named change_named
count_admins-change_named name f [] u e = absurd (ground arith)
count_admins-change_named name f (v ∷ us) u e = elim (Bool-cases (text_eq v.username name)) [
  | inl same ↦ ground arith
  | inr other ↦ ground (arith, count_admins-change_named name f us u)
]

count_admins_but-le_count : (name : Text) (us : Users) → count_admins_but name us ≤ count_admins us
count_admins_but-le_count name [] = omega arith
count_admins_but-le_count name (v ∷ us) = ground (arith, count_admins_but-le_count name us)

count_admins_but-le :
    (name : Text) (f : User → User) (us : Users)
    → count_admins_but name us ≤ count_admins (change_named name f us)
unfolding change_named
count_admins_but-le name f [] = omega arith
count_admins_but-le name f (v ∷ us) = elim (Bool-cases (text_eq v.username name)) [
  | inl same ↦ ground (arith, count_admins_but-le_count name us)
  | inr other ↦ ground (arith, count_admins_but-le name f us)
]

-- a passed check of the role and of the disabling: another administrator remains, or the row stays one
check_keeps_active :
    (hash : Text → ℕ) (u : User) (body : UpdateUserRequest) (us : Users)
    → check_role u body.role us ≡ Check.passed
    → check_disabled u body.disabled us ≡ Check.passed
    → another_admin_remains u.username us ≡ false
    → one_if (active_admin u) ≤ one_if (active_admin (set_fields hash body u))
check_keeps_active hash u body us r d alone = ground arith

find_named-username :
    (name : Text) (us : Users) (u : User) → find_named name us ≡ some u → u.username ≡ name
unfolding find_named
find_named-username name [] u e = absurd (ground arith)
find_named-username name (v ∷ us) u e =
    ground (arith, text_eq_iff v.username name, find_named-username name us u)

saved_keeps_admin :
    (hash : Text → ℕ) (name : Text) (body : UpdateUserRequest) (us : Users) (u : User)
    → find_named name us ≡ some u
    → lower u.username ≡ name
    → check_role u body.role us ≡ Check.passed
    → check_disabled u body.disabled us ≡ Check.passed
    → 1 ≤ count_admins us
    → 1 ≤ count_admins (change_named name (set_fields hash body) us)
saved_keeps_admin hash name body us u found low r d some_admin =
    elim (Bool-cases (another_admin_remains u.username us)) [
      | inl more ↦
          let other : 1 ≤ count_admins_but (lower u.username) us = ground arith in
          let here : 1 ≤ count_admins_but name us = rw low at other in
          omega (arith, count_admins_but-le name (set_fields hash body) us)
      | inr alone ↦ omega (
        arith,
        count_admins-change_named name (set_fields hash body) us u found,
        check_keeps_active hash u body us r d alone,
      )
    ]

-- what an accepted change passed, and the store that it left
record Saved (hash : Text → ℕ) (body : UpdateUserRequest) (u : User) (st st' : Store) : Type 0 where
  role_passed : check_role u body.role st.users ≡ Check.passed
  disabled_passed : check_disabled u body.disabled st.users ≡ Check.passed
  users_after : st'.users ≡ change_named (lower u.username) (set_fields hash body) st.users
  sessions_after :
      st'.sessions
      ≡ (if revokes body then (delete_user_sessions u.id st.sessions).1 else st.sessions)

update_user_route-Saved :
    (hash : Text → ℕ) (name : Text) (body : UpdateUserRequest) (st st' : Store) (u : User)
    → get_user name st.users ≡ some u
    → update_user_route hash name body st ≡ done st'
    → Saved hash body u st st'
unfolding update_user_route update_found save
update_user_route-Saved hash name body st st' u found e = record {
  role_passed = ground arith;
  disabled_passed = ground arith;
  users_after = ground arith;
  sessions_after = ground arith;
}

-- Where an appliance has an active administrator, it has one after every change of a user that the update
-- route makes: of a role, of the disabling, of a password, or of several of them at once.
pub update_user_route_keeps_admin :
    (hash : Text → ℕ) (name : Text) (body : UpdateUserRequest) (st st' : Store)
    → 1 ≤ count_admins st.users
    → update_user_route hash name body st ≡ done st'
    → 1 ≤ count_admins st'.users
unfolding update_user_route update_found
update_user_route_keeps_admin hash name body st st' some_admin e =
    elim (Option-cases (get_user name st.users)) [
      | inl missing ↦ absurd (ground arith)
      | inr (u, found) ↦
          let low : lower u.username ≡ lower name =
            ap lower (find_named-username (lower name) st.users u found) ∙ lower-lower name in
          let saved = update_user_route-Saved hash name body st st' u found e in
          rw (saved.users_after, low)
            (saved_keeps_admin hash (lower name) body st.users u found low saved.role_passed
              saved.disabled_passed some_admin)
    ]

-- Where the update route gives a user a role or a password, or disables the user, no token resolves to a
-- principal of that user's id any more, until a new session is made.
pub update_user_route-revokes :
    (hash : Text → ℕ) (name : Text) (body : UpdateUserRequest) (st st' : Store) (u : User)
    → get_user name st.users ≡ some u
    → update_user_route hash name body st ≡ done st'
    → revokes body ≡ true
    → (now token : ℕ) (p : Principal) (csrf : ℕ)
    → (resolve_session now token st'.users st'.sessions).0 ≡ some (p, csrf)
    → p.id ≢ u.id
update_user_route-revokes hash name body st st' u found e r now token p csrf =
    let saved = update_user_route-Saved hash name body st st' u found e in
    let after : st'.sessions ≡ (delete_user_sessions u.id st.sessions).1 =
      saved.sessions_after ∙ (rw r refl) in
    rw after ((delete_user_sessions_revokes u.id st.sessions).0 now token st'.users p csrf)
