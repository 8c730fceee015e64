-- ===== src/Accounts/Sessions/Revocation.antt =====
-- firemex/store.py: whom a session stands for, and how it ends.
use fireme_x.Base.{
  ◌++◌, ap, ==_iff, ℕ, ◌<◌, ◌≡◌, refl, ◌≢◌, Bool, true, false, not, Option, none, some, [], ◌∷◌,
  arith, ◌==◌, keep, Bool-cases, Option-cases, inl, inr,
}
use fireme_x.Accounts.Users.{new_user, create_user, User, Users, find_id}
use fireme_x.Accounts.Sessions.{
  Role, Text, Session, Sessions, Principal, principal_of, find_session, resolve_session,
  resolve_row, resolve_user, delete_user_sessions,
}

-- What a resolved session stands on: a row of the token that has not expired, and the enabled user of
-- its id.
pub record Live (now token : ℕ) (us : Users) (ss : Sessions) (p : Principal) (csrf : ℕ)
    : Type 0 where
  pub session : Session
  pub user : User
  pub stored : find_session token ss ≡ some session
  pub fresh : now < session.expires_at
  pub owned : find_id session.user_id us ≡ some user
  pub enabled : user.disabled ≡ false
  pub stands_for : p ≡ principal_of user
  pub same_csrf : csrf ≡ session.csrf_token

-- A token resolves only to the principal and the CSRF token of a stored session that has not expired and
-- whose user exists and is enabled.
pub resolve_session-Live :
    (now token : ℕ) (us : Users) (ss : Sessions) (p : Principal) (csrf : ℕ)
    → (resolve_session now token us ss).0 ≡ some (p, csrf)
    → Live now token us ss p csrf
unfolding resolve_session resolve_row resolve_user
resolve_session-Live now token us ss p csrf e = elim (Option-cases (find_session token ss)) [
  | inl missing ↦ absurd (ground arith)
  | inr (s, found) ↦ elim (Option-cases (find_id s.user_id us)) [
    | inl nobody ↦ absurd (ground arith)
    | inr (u, owner) ↦ record {
      session = s;
      user = u;
      stored = found;
      fresh = ground arith;
      owned = owner;
      enabled = ground arith;
      stands_for = ground arith;
      same_csrf = ground arith;
    }
  ]
]

find_session-keep :
    (p : Session → Bool) (token : ℕ) (ss : Sessions) (s : Session)
    → find_session token (keep p ss) ≡ some s
    → p s ≡ true
unfolding find_session
find_session-keep p token [] s e = absurd (ground arith)
find_session-keep p token (r ∷ ss) s e = elim (Bool-cases (p r)) [
  | inl kept ↦ ground (arith, find_session-keep p token ss s)
  | inr dropped ↦ ground (arith, find_session-keep p token ss s)
]

find_session_keeps :
    (p : Session → Bool) (token : ℕ) (ss : Sessions) (s : Session)
    → find_session token ss ≡ some s
    → p s ≡ true
    → find_session token (keep p ss) ≡ some s
unfolding find_session
find_session_keeps p token [] s e h = absurd (ground arith)
find_session_keeps p token (r ∷ ss) s e h = elim (Bool-cases (p r)) [
  | inl kept ↦ ground (arith, find_session_keeps p token ss s)
  | inr dropped ↦ ground (arith, find_session_keeps p token ss s)
]

find_id-id : (k : ℕ) (us : Users) (u : User) → find_id k us ≡ some u → u.id ≡ k
unfolding find_id
find_id-id k [] u e = absurd (ground arith)
find_id-id k (v ∷ us) u e = ground (arith, ==_iff v.id k, find_id-id k us u)

-- Once the sessions of a user are deleted, no token resolves to a principal of that user's id, at any
-- time and with any users, and a stored session of any other user is still stored.
pub delete_user_sessions_revokes :
    (user : ℕ) (ss : Sessions)
    → ((now token : ℕ) (us : Users) (p : Principal) (csrf : ℕ)
        → (resolve_session now token us (delete_user_sessions user ss).1).0 ≡ some (p, csrf)
        → p.id ≢ user)
      × ((token : ℕ) (s : Session)
          → find_session token ss ≡ some s
          → s.user_id ≢ user
          → find_session token (delete_user_sessions user ss).1 ≡ some s)
unfolding delete_user_sessions
delete_user_sessions_revokes user ss = (
  λ now token us p csrf e same.
      let live =
        resolve_session-Live now token us (keep (λ s. not (s.user_id == user)) ss) p csrf e in
      let other =
        find_session-keep (λ s. not (s.user_id == user)) token ss live.session live.stored in
      let mine = find_id-id live.session.user_id us live.user live.owned in
      ground (arith, ==_iff live.session.user_id user, ap Principal.id live.stands_for),
  λ token s found ne.
      find_session_keeps (λ r. not (r.user_id == user)) token ss s found
        (ground (arith, ==_iff s.user_id user)),
)

find_id-append :
    (k : ℕ) (us : Users) (u : User)
    → find_id k us ≡ none
    → u.id ≡ k
    → find_id k (us ++ u ∷ []) ≡ some u
unfolding find_id
find_id-append k [] u e h = ground (arith, ==_iff u.id k)
find_id-append k (v ∷ us) u e h = ground (arith, find_id-append k us u)

-- A session that is left behind by a deleted user, and has not expired, logs its holder in as the user who
-- is next created under the same id.
pub resolve_session_inherited :
    (now token id : ℕ) (name : Text) (hash : ℕ) (role : Role) (creator : Option Text)
    (us us' : Users) (ss : Sessions) (s : Session)
    → find_session token ss ≡ some s
    → now < s.expires_at
    → s.user_id ≡ id
    → find_id id us ≡ none
    → create_user id name hash role creator us ≡ some us'
    → (resolve_session now token us' ss).0
      ≡ some (principal_of (new_user id name hash role creator), s.csrf_token)
unfolding resolve_session resolve_row resolve_user create_user
resolve_session_inherited now token id name hash role creator us us' ss s found fresh same gone
      made =
    let user : User = new_user id name hash role creator in
    let there : find_id s.user_id us' ≡ some user =
      ground (arith, find_id-append id us user gone refl) in
    ground arith
