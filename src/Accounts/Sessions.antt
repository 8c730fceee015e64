-- ===== src/Accounts/Sessions.antt =====
-- firemex/store.py: the session table. A token's hash and a CSRF token are numbers, times are in ticks of
-- a second, and a table is the list of its rows.
use fireme_x.Base.{
  take, ℕ, ◌+◌, ◌-◌, ◌*◌, Bool, true, false, not, Option, none, some, List, [], ◌∷◌, ◌++◌, ltb, leb,
  ◌==◌, if◌then◌else◌, keep, count_if,
}
use fireme_x.Accounts.Text.{Text}
use fireme_x.Accounts.Roles.{Role}
use fireme_x.Accounts.Users.{User, Users, find_id}
pub mod Revocation

pub record Session : Type 0 where
  pub token_hash : ℕ
  pub user_id : ℕ
  pub csrf_token : ℕ
  pub expires_at : ℕ
  pub last_seen_at : ℕ
  pub user_agent : Option Text
  pub ip : Option Text

abbrev pub Sessions : Type 0
Sessions = List Session

-- auth.py's `Principal`
pub record Principal : Type 0 where
  pub id : ℕ
  pub username : Text
  pub role : Role
  pub must_change_password : Bool

abbrev pub principal_of : User → Principal
principal_of u = record {
  id = u.id;
  username = u.username;
  role = u.role;
  must_change_password = u.must_change_password;
}

-- `session.get(SessionRecord, token_hash)`
unfoldable pub find_session : ℕ → Sessions → Option Session
find_session token [] = none
find_session token (s ∷ ss) =
    let rest = find_session token ss in if s.token_hash == token then some s else rest

-- `_delete_session`
unfoldable pub delete_session : ℕ → Sessions → Sessions
delete_session token ss = keep (λ s. not (s.token_hash == token)) ss

-- `(user_agent or "")[:255] or None`
abbrev pub clip_agent : Option Text → Option Text
clip_agent none = none
clip_agent (some []) = none
clip_agent (some (c ∷ cs)) = some (take 255 (c ∷ cs))

-- `_create_session`
unfoldable pub create_session : ℕ → ℕ → ℕ → ℕ → ℕ → Option Text → Option Text → Sessions → Sessions
create_session now user token csrf ttl_hours agent ip ss =
    ss
    ++ record {
      token_hash = token;
      user_id = user;
      csrf_token = csrf;
      expires_at = now + ttl_hours * 3600;
      last_seen_at = now;
      user_agent = clip_agent agent;
      ip = ip;
    }
      ∷ []

-- the last-seen stamp of the row set
unfoldable pub touch : ℕ → ℕ → Sessions → Sessions
touch now token [] = []
touch now token (s ∷ ss) =
    let rest = touch now token ss in
    if s.token_hash == token then record s { last_seen_at = now } ∷ ss else s ∷ rest

unfoldable pub resolve_user :
    ℕ → ℕ → Session → Sessions → Option User → Option (Principal × ℕ) × Sessions
unfolding touch delete_session
resolve_user now token s ss none = (none, delete_session token ss)
resolve_user now token s ss (some u) = if u.disabled then (none, delete_session token ss) else (
  some (principal_of u, s.csrf_token),
  if ltb (s.last_seen_at + 60) now then touch now token ss else ss,
)

unfoldable pub resolve_row :
    ℕ → ℕ → Users → Sessions → Option Session → Option (Principal × ℕ) × Sessions
unfolding resolve_user delete_session find_id
resolve_row now token us ss none = (none, ss)
resolve_row now token us ss (some s) =
    if leb s.expires_at now
    then (none, delete_session token ss)
    else resolve_user now token s ss (find_id s.user_id us)

-- `_resolve_session`
unfoldable pub resolve_session : ℕ → ℕ → Users → Sessions → Option (Principal × ℕ) × Sessions
unfolding resolve_row find_session
resolve_session now token us ss = resolve_row now token us ss (find_session token ss)

-- `_delete_user_sessions`: how many rows went, and the table
unfoldable pub delete_user_sessions : ℕ → Sessions → ℕ × Sessions
delete_user_sessions user ss =
    (count_if (λ s. s.user_id == user) ss, keep (λ s. not (s.user_id == user)) ss)

-- `_purge_expired_sessions`
unfoldable pub purge_expired_sessions : ℕ → Sessions → ℕ × Sessions
purge_expired_sessions now ss =
    (count_if (λ s. leb s.expires_at now) ss, keep (λ s. not (leb s.expires_at now)) ss)
