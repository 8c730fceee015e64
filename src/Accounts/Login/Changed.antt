-- ===== src/Accounts/Login/Changed.antt =====
-- firemex/api/routes_auth.py: what a change of one's own password leaves of the sessions.
use mathlib.Core.Path.{subst}
use fireme_x.Base.{
  ℕ, ◌≡◌, ◌≢◌, refl, sym, ◌∙◌, ap, Bool, false, Option, none, some, [], ◌∷◌, ◌++◌, arith,
  Bool-cases, inl, inr, ◌==◌, ==_iff,
}
use fireme_x.Accounts.Text.{Text, text_eq}
use fireme_x.Accounts.Roles.{validate_password}
use fireme_x.Accounts.Users.{Users, Verdict, authenticate}
use fireme_x.Accounts.Sessions.{
  Session, Sessions, Principal, find_session, resolve_session, resolve_row, resolve_user,
  create_session, delete_user_sessions,
}
use fireme_x.Accounts.Sessions.Revocation.{delete_user_sessions_revokes}
use fireme_x.Accounts.Access.{Store}
use fireme_x.Accounts.Login.{Fresh, changed, open_session, set_new, change_on, change_password}

find_session-append_ne :
    (token : ℕ) (ss : Sessions) (s : Session)
    → (s.token_hash == token) ≡ false
    → find_session token (ss ++ s ∷ []) ≡ find_session token ss
unfolding find_session
find_session-append_ne token [] s h = rw h refl
find_session-append_ne token (r ∷ ss) s h = ground (arith, find_session-append_ne token ss s)

-- whom a row stands for does not depend on the other rows
resolve_row-same :
    (now token : ℕ) (us : Users) (ss ss' : Sessions) (o : Option Session)
    → (resolve_row now token us ss o).0 ≡ (resolve_row now token us ss' o).0
unfolding resolve_row resolve_user
resolve_row-same now token us ss ss' none = refl
resolve_row-same now token us ss ss' (some s) = ground arith

-- a new session changes nothing for other tokens
resolve_session_other :
    (f : Fresh) (user now token : ℕ) (us : Users) (ss : Sessions)
    → token ≢ f.token_hash
    → (resolve_session now token us ss).0
      ≡ (resolve_session now token us (open_session f user ss)).0
unfolding resolve_session create_session
resolve_session_other f user now token us ss other =
    resolve_row-same now token us ss (open_session f user ss) (find_session token ss)
    ∙ ap (λ o. (resolve_row now token us (open_session f user ss) o).0)
        (sym (find_session-append_ne token ss _ (ground (arith, ==_iff f.token_hash token))))

module _ (hash_password : Text → ℕ) (verify : Text → ℕ → Bool) where
  set_new-changed :
      (f : Fresh) (p : Principal) (current : Text) (st : Store) (o : Option Text)
      → (set_new hash_password verify f p current st o).1 ≡ changed
      → ((set_new hash_password verify f p current st o).0.sessions
          ≡ open_session f p.id (delete_user_sessions p.id st.sessions).1)
  unfolding set_new
  set_new-changed f p current st none h = cc
  set_new-changed f p current st (some new) h = elim (Bool-cases (text_eq new current)) [
    | inl same ↦ cc (rw same at h)
    | inr other ↦ rw other refl
  ]

  change_on-changed :
      (f : Fresh) (p : Principal) (current new : Text) (st : Store) (v : Verdict)
      → (change_on hash_password verify f p current new st v).1 ≡ changed
      → ((change_on hash_password verify f p current new st v).0.sessions
          ≡ open_session f p.id (delete_user_sessions p.id st.sessions).1)
        × (v ≡ Verdict.accepted)
  unfolding change_on
  change_on-changed f p current new st Verdict.accepted h =
      (set_new-changed f p current st (validate_password new) h, refl)
  change_on-changed f p current new st Verdict.locked h = cc
  change_on-changed f p current new st Verdict.user_disabled h = cc
  change_on-changed f p current new st Verdict.invalid_credentials h = cc

  -- Where the change of a password is made, the current password was accepted, and no token but the one
  -- that the route sets resolves to that user's id any more, at any time and with any users.
  pub change_password_revokes :
      (f : Fresh) (p : Principal) (current new : Text) (st : Store)
      → (change_password hash_password verify f p current new st).1 ≡ changed
      → ((authenticate verify f.now p.username current st.users).0 ≡ Verdict.accepted)
        × ((now token : ℕ) (us : Users) (q : Principal) (csrf : ℕ)
            → token ≢ f.token_hash
            → (resolve_session now token us
                (change_password hash_password verify f p current new st).0.sessions).0
              ≡ some (q, csrf)
            → q.id ≢ p.id)
  unfolding change_password
  change_password_revokes f p current new st done =
      let out : Verdict × Users = authenticate verify f.now p.username current st.users in
      let steps = change_on-changed f p current new (record st { users = out.1 }) out.0 done in
      (
        steps.1,
        λ now token us q csrf other e.
            (delete_user_sessions_revokes p.id st.sessions).0 now token us q csrf (
              resolve_session_other f p.id now token us (delete_user_sessions p.id st.sessions).1
                other
              ∙ subst (λ ss. (resolve_session now token us ss).0 ≡ some (q, csrf)) steps.0 e),
      )
