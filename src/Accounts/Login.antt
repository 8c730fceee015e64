-- ===== src/Accounts/Login.antt =====
-- firemex/api/routes_auth.py: login, logout and the change of one's own password. A route runs as one
-- step; the time, the token with its hash, the CSRF token, and the hash and verification of passwords
-- are parameters. Of a request, the user agent and the address are passed on.
use fireme_x.Base.{ℕ, Bool, true, false, Option, none, some, List, [], ◌∷◌, if◌then◌else◌}
use fireme_x.Accounts.Text.{Text, text_eq, lower}
use fireme_x.Accounts.Roles.{Role, validate_password}
use fireme_x.Accounts.Users.{
  User, Users, Verdict, invalid_credentials, user_disabled, locked, accepted, find_named, get_user,
  authenticate, set_password,
}
use fireme_x.Accounts.Sessions.{
  Session, Sessions, Principal, principal_of, create_session, delete_session, delete_user_sessions,
}
use fireme_x.Accounts.Access.{Store}
pub mod Signed
pub mod Changed

-- `SESSION_TTL_HOURS`, a constant of the routes: they do not read the setting FIREMEX_SESSION_TTL_HOURS
abbrev pub session_ttl_hours : ℕ
session_ttl_hours = 12

-- what the server draws and reads for a request that may open a session
pub record Fresh : Type 0 where
  pub now : ℕ
  pub token_hash : ℕ
  pub csrf_token : ℕ
  pub user_agent : Option Text
  pub ip : Option Text

pub data Reply : Type 0 where
  -- the user and the cookies
  signed_in : Principal → Reply
  too_many_requests forbidden unauthorized bad_request : Reply
  changed logged_out : Reply

-- `create_session` for a user, and the cookies
abbrev pub open_session : Fresh → ℕ → Sessions → Sessions
open_session f user ss =
    create_session f.now user f.token_hash f.csrf_token session_ttl_hours f.user_agent f.ip ss

-- the HTTPException of a failed login
abbrev refusal : Verdict → Reply
refusal Verdict.locked = too_many_requests
refusal Verdict.user_disabled = forbidden
refusal _ = unauthorized

pub sign_in : Fresh → Store → Option User → Store × Reply
unfolding create_session
sign_in f st none = (st, unauthorized)
sign_in f st (some u) =
    (record st { sessions = open_session f u.id st.sessions }, signed_in (principal_of u))

-- the rest of `login`, with the verdict and the accepted user
pub after_verdict : Fresh → Store → Verdict → Option User → Store × Reply
unfolding sign_in
after_verdict f st Verdict.accepted u = sign_in f st u
after_verdict f st v u = (st, refusal v)

module _ (hash_password : Text → ℕ) (verify : Text → ℕ → Bool) where
  -- `login`
  unfoldable pub login : Fresh → Text → Text → Store → Store × Reply
  unfolding after_verdict authenticate find_named
  login f name password st =
      let (verdict, users) = authenticate verify f.now name password st.users in
      after_verdict f (record st { users = users }) verdict (get_user name users)

  pub or_same : Users → Option Users → Users
  or_same us none = us
  or_same us (some us') = us'

  -- a password that is long enough and not the old one is set, every session of the user goes, and a
  -- new one is opened
  pub set_new : Fresh → Principal → Text → Store → Option Text → Store × Reply
  unfolding or_same set_password delete_user_sessions create_session
  set_new f p current st none = (st, bad_request)
  set_new f p current st (some new) = if text_eq new current then (st, bad_request) else (
    record {
      users = or_same st.users (set_password p.username (hash_password new) st.users);
      sessions = open_session f p.id (delete_user_sessions p.id st.sessions).1;
    },
    changed,
  )

  pub change_on : Fresh → Principal → Text → Text → Store → Verdict → Store × Reply
  unfolding set_new validate_password
  change_on f p current new st Verdict.accepted = set_new f p current st (validate_password new)
  change_on f p current new st _ = (st, forbidden)

  -- `change_password`
  unfoldable pub change_password : Fresh → Principal → Text → Text → Store → Store × Reply
  unfolding change_on authenticate
  change_password f p current new st =
      let (verdict, users) = authenticate verify f.now p.username current st.users in
      change_on f p current new (record st { users = users }) verdict

abbrev without_token : Option ℕ → Sessions → Sessions
without_token none ss = ss
without_token (some token) ss = delete_session token ss

-- `logout`, with the hash of the session cookie
unfoldable pub logout : Option ℕ → Store → Store × Reply
unfolding delete_session
logout token st = (record st { sessions = without_token token st.sessions }, logged_out)
