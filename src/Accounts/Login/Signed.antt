-- ===== src/Accounts/Login/Signed.antt =====
-- firemex/api/routes_auth.py: what a login gives, and what a logout takes.
use mathlib.Core.Path.{subst}
use fireme_x.Base.{
  leb-false, ℕ, ◌+◌, ◌*◌, ◌<◌, ◌≡◌, refl, sym, ◌∙◌, ap, Bool, true, false, Option, none, some, [],
  ◌∷◌, ◌++◌, arith, Bool-cases, Option-cases, inl, inr, ◌==◌,
}
use fireme_x.Accounts.Text.{Text, text_eq, lower}
use fireme_x.Accounts.Users.{
  User, Users, Verdict, find_named, find_id, get_user, attempt, change_named, passed_attempt,
  authenticate, authenticate_row,
}
use fireme_x.Accounts.Sessions.{
  Session, Sessions, Principal, principal_of, find_session, resolve_session, resolve_row,
  resolve_user, create_session, delete_session,
}
use fireme_x.Accounts.Access.{Store}
use fireme_x.Accounts.Login.{Fresh, signed_in, open_session, login, logout, after_verdict, sign_in}

pub find_named-named :
    (name : Text) (us : Users) (u : User)
    → find_named name us ≡ some u
    → text_eq u.username name ≡ true
unfolding find_named
find_named-named name [] u h = cc
find_named-named name (v ∷ us) u h = elim (Bool-cases (text_eq v.username name)) [
  | inl same ↦ ground arith
  | inr other ↦ ground (arith, find_named-named name us u)
]

-- the row of a name after it was replaced by one of that name
pub find_named-change :
    (name : Text) (w : User) (us : Users) (u : User)
    → find_named name us ≡ some u
    → text_eq w.username name ≡ true
    → find_named name (change_named name (λ _. w) us) ≡ some w
unfolding find_named change_named
find_named-change name w [] u h e = cc
find_named-change name w (v ∷ us) u h e = elim (Bool-cases (text_eq v.username name)) [
  | inl same ↦ rw (same, e) refl
  | inr other ↦ rw (other, other) (find_named-change name w us u (rw other at h) e)
]

attempt_accepted :
    (now : ℕ) (matches : Bool) (u : User)
    → (attempt now matches u).0 ≡ Verdict.accepted
    → (u.disabled ≡ false) × (matches ≡ true) × ((attempt now matches u).1 ≡ passed_attempt now u)
unfolding attempt
attempt_accepted now matches u h = ground arith

find_session-append :
    (token : ℕ) (ss : Sessions) (s : Session)
    → find_session token ss ≡ none
    → (s.token_hash == token) ≡ true
    → find_session token (ss ++ s ∷ []) ≡ some s
unfolding find_session
find_session-append token [] s h e = rw e refl
find_session-append token (r ∷ ss) s h e = ground (arith, find_session-append token ss s)

find_session-delete :
    (token : ℕ) (ss : Sessions) → find_session token (delete_session token ss) ≡ none
unfolding find_session delete_session
find_session-delete token [] = refl
find_session-delete token (s ∷ ss) = ground (arith, find_session-delete token ss)

-- what an accepted login leaves of the user's row
pub record Accepted (now : ℕ) (name : Text) (us : Users) : Type 0 where
  pub user : User
  pub there : get_user name us ≡ some user
  pub enabled : user.disabled ≡ false

pub authenticate-Accepted :
    (verify : Text → ℕ → Bool) (now : ℕ) (name password : Text) (us : Users)
    → (authenticate verify now name password us).0 ≡ Verdict.accepted
    → Accepted now name (authenticate verify now name password us).1
unfolding authenticate authenticate_row passed_attempt
authenticate-Accepted verify now name password us h =
    elim (Option-cases (find_named (lower name) us)) [
      | inl missing ↦ cc (rw (missing, authenticate_row) at h)
      | inr (u, found) ↦
          let passed =
            attempt_accepted now (verify password u.password_hash) u
              (rw (found, authenticate_row) at h) in
          let w : User = (attempt now (verify password u.password_hash) u).1 in
          let named : text_eq w.username (lower name) ≡ true =
            ap (λ (x : User). text_eq x.username (lower name)) passed.2
            ∙ find_named-named (lower name) us u found in
          rw (found, authenticate_row)
            (record {
              user = w;
              there = find_named-change (lower name) w us u found named;
              enabled = ap User.disabled passed.2 ∙ passed.0;
            })
    ]

resolve_session_stored :
    (now token : ℕ) (us : Users) (ss : Sessions) (s : Session) (u : User)
    → find_session token ss ≡ some s
    → now < s.expires_at
    → find_id s.user_id us ≡ some u
    → u.disabled ≡ false
    → (resolve_session now token us ss).0 ≡ some (principal_of u, s.csrf_token)
unfolding resolve_session resolve_row resolve_user
resolve_session_stored now token us ss s u found fresh owned enabled =
    rw (found, resolve_row)
      (rw (leb-false s.expires_at now fresh) (rw (owned, resolve_user) (rw enabled refl)))

resolve_session_opened :
    (f : Fresh) (now : ℕ) (u : User) (ss : Sessions) (us : Users)
    → find_session f.token_hash ss ≡ none
    → now < f.now + 12 * 3600
    → find_id u.id us ≡ some u
    → u.disabled ≡ false
    → (resolve_session now f.token_hash us (open_session f u.id ss)).0
      ≡ some (principal_of u, f.csrf_token)
unfolding create_session
resolve_session_opened f now u ss us fresh soon owned enabled =
    resolve_session_stored now f.token_hash us _ _ u
      (find_session-append f.token_hash ss _ fresh (ground arith)) soon owned enabled

resolve_session_missing :
    (now token : ℕ) (us : Users) (ss : Sessions)
    → find_session token ss ≡ none
    → (resolve_session now token us ss).0 ≡ none
unfolding resolve_session resolve_row
resolve_session_missing now token us ss missing = rw (missing, resolve_row) refl

-- what a login that signs in has done
after_verdict-signed_in :
    (f : Fresh) (st : Store) (v : Verdict) (o : Option User) (p : Principal)
    → (after_verdict f st v o).1 ≡ signed_in p
    → (v ≡ Verdict.accepted)
      × ((u : User) × (o ≡ some u)
          × (p ≡ principal_of u)
          × ((after_verdict f st v o).0 ≡ record st { sessions = open_session f u.id st.sessions }))
unfolding after_verdict sign_in
after_verdict-signed_in f st Verdict.accepted none p h = cc
after_verdict-signed_in f st Verdict.accepted (some u) p h = (refl, (u, refl, ground arith, refl))
after_verdict-signed_in f st Verdict.locked o p h = cc
after_verdict-signed_in f st Verdict.user_disabled o p h = cc
after_verdict-signed_in f st Verdict.invalid_credentials o p h = cc

module _ (hash_password : Text → ℕ) (verify : Text → ℕ → Bool) where
  -- A login that signs in gives a token which no stored session had: for the twelve hours of the routes'
  -- own constant, as long as no other request comes in between, the token resolves to the principal
  -- that the login answered, with the CSRF token that it set, where the accepted user's id is its row's
  -- alone; and once that token is logged out it resolves to nobody.
  pub login_resolves :
      (f : Fresh) (name password : Text) (st : Store) (p : Principal) (now : ℕ)
      → (login hash_password verify f name password st).1 ≡ signed_in p
      → find_session f.token_hash st.sessions ≡ none
      → ((u : User)
          → get_user name (login hash_password verify f name password st).0.users ≡ some u
          → find_id u.id (login hash_password verify f name password st).0.users ≡ some u)
      → now < f.now + 12 * 3600
      → ((resolve_session now f.token_hash
            (login hash_password verify f name password st).0.users
            (login hash_password verify f name password st).0.sessions).0
          ≡ some (p, f.csrf_token))
        × ((resolve_session now f.token_hash
              (login hash_password verify f name password st).0.users
              (logout
                (some f.token_hash)
                (login hash_password verify f name password st).0).0.sessions).0
            ≡ none)
  unfolding login logout create_session
  login_resolves f name password st p now signed fresh unique soon =
      let out : Verdict × Users = authenticate verify f.now name password st.users in
      let before : Store = record st { users = out.1 } in
      let signing = after_verdict-signed_in f before out.0 (get_user name out.1) p signed in
      let u : User = signing.1.0 in
      let after : Store = record before { sessions = open_session f u.id st.sessions } in
      let result : (login hash_password verify f name password st).0 ≡ after = signing.1.3 in
      let there : get_user name out.1 ≡ some u = signing.1.1 in
      let row = authenticate-Accepted verify f.now name password st.users signing.0 in
      let enabled : u.disabled ≡ false = cc (row.there, row.enabled, there) in
      let users : (login hash_password verify f name password st).0.users ≡ out.1 =
        ap Store.users result in
      let owned : find_id u.id out.1 ≡ some u =
        subst (λ us. find_id u.id us ≡ some u) users
          (unique u (ap (get_user name) users ∙ there)) in
      (
        subst
            (λ (s : Store).
              (resolve_session now f.token_hash s.users s.sessions).0 ≡ some (p, f.csrf_token))
            (sym result)
            (resolve_session_opened f now u st.sessions out.1 fresh soon owned enabled
              ∙ ap (λ q. some (q, f.csrf_token)) (sym signing.1.2)),
        resolve_session_missing now f.token_hash
            (login hash_password verify f name password st).0.users _
            (find_session-delete f.token_hash
              (login hash_password verify f name password st).0.sessions),
      )
