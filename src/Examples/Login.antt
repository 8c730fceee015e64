-- ===== src/Examples/Login.antt =====
-- Runs of the login, of the change of a password, of the creation of users, and of texts with secrets.
use Prim.Native.Nat.{zero}
use mathlib.Core.Path.{subst}
use fireme_x.Base.{
  suc, ℕ, ◌+◌, ◌-◌, ◌≡◌, refl, ap, ◌≢◌, Bool, true, false, none, some, [], ◌∷◌, ◌++◌, map, any,
  length, arith, ◌==◌,
}
use fireme_x.Accounts.Text.{Text, codes, text_eq, lower}
use fireme_x.Accounts.Roles.{Role}
use fireme_x.Accounts.Users.{
  User, Users, Verdict, new_user, get_user, find_id, find_named, authenticate, passed_attempt,
}
use fireme_x.Accounts.Sessions.{Session, Principal, principal_of, find_session, resolve_session}
use fireme_x.Accounts.Access.{Store}
use fireme_x.Accounts.Login.{Fresh, signed_in, changed, login, logout, change_password}
use fireme_x.Accounts.Login.Signed.{login_resolves}
use fireme_x.Accounts.Login.Changed.{change_password_revokes}
use fireme_x.Accounts.Registration.{
  CreateUserRequest, created, or_empty, Created, create_user_route, create_user_route_authenticates,
}
use fireme_x.Accounts.Redaction.{redact_url, redact_url-credentials}
use fireme_x.Accounts.Passwords.{
  Bytes, Codec, IsCodec, encode, hash_password, verify_password, verify_password-hash,
}

redact_url-credentials_example :
    redact_url (codes "rtsp" ++ (codes "://" ++ (codes "u:p@ss" ++ 64 ∷ codes "host/1")))
    ≡ codes "rtsp" ++ (codes "://***@" ++ codes "host/1")
redact_url-credentials_example =
    redact_url-credentials (codes "rtsp") (codes "u:p@ss") (codes "host/1") refl refl

abbrev zeros : ℕ → Bytes
zeros zero = []
zeros (suc n) = 0 ∷ zeros n

-- a codec that shifts bytes past the "$", with a hash that has nothing but the right length
abbrev shifted : Codec
shifted = record {
  scrypt = λ p salt k. some (zeros k.dklen);
  b64encode = λ b. map (λ x. x + 37) b;
  b64decode = λ t. some (map (λ x. x - 37) t);
}

zeros-length : (n : ℕ) → length (zeros n) ≡ n
zeros-length zero = refl
zeros-length (suc n) = ap suc (zeros-length n)

shifted_back : (b : Bytes) → map (λ x. x - 37) (map (λ x. x + 37) b) ≡ b
shifted_back [] = refl
shifted_back (x ∷ b) = ground (arith, shifted_back b)

shifted_plain : (b : Bytes) → any (λ x. x == 36) (map (λ x. x + 37) b) ≡ false
shifted_plain [] = refl
shifted_plain (x ∷ b) = ground (arith, shifted_plain b)

shifted-IsCodec : IsCodec shifted
shifted-IsCodec = record {
  sized = λ p salt k d h. ground (arith, zeros-length k.dklen);
  decodes = λ b. ap some (shifted_back b);
  plain = shifted_plain;
}

abbrev salt : Bytes
salt = 1 ∷ 2 ∷ []

abbrev stored : Text
stored = encode shifted salt (zeros 32)

hashed : hash_password shifted salt (codes "open sesame") ≡ some stored
unfolding hash_password
hashed = refl

verify_password-hash_example : verify_password shifted (codes "open sesame") stored ≡ true
verify_password-hash_example =
    verify_password-hash shifted salt (codes "open sesame") stored shifted-IsCodec hashed

-- a hash and its verification
abbrev hash : Text → ℕ
hash password = length password

abbrev verify : Text → ℕ → Bool
verify password digest = length password == digest

abbrev ann : Text
ann = codes "ann"

abbrev admin : User
admin = new_user 1 ann 8 Role.admin none

abbrev body : CreateUserRequest
body = record { username = codes " Bob.7"; password = codes "longenough"; role = Role.viewer }

-- the column holds the one hash that is stored
abbrev number : Text → ℕ
number encoded = 10

abbrev text : ℕ → Text
text n = stored

abbrev hashing : Text → ℕ
hashing p = number (or_empty (hash_password shifted salt p))

abbrev with_bob : Users
with_bob = admin ∷ new_user 2 (codes "bob.7") 10 Role.viewer (some ann) ∷ []

bob_hashed : hash_password shifted salt body.password ≡ some stored
unfolding hash_password
bob_hashed = refl

bob_created : create_user_route hashing 2 body ann (admin ∷ []) ≡ created with_bob
unfolding create_user_route text_eq lower
bob_created = refl

create_user_route_authenticates_example :
    (made : Created hashing 2 body ann (admin ∷ []) with_bob) × ((authenticate
        (λ p n. verify_password shifted p (text n))
        60
        made.name
        body.password
        with_bob).0
      ≡ Verdict.accepted)
create_user_route_authenticates_example =
    create_user_route_authenticates shifted salt stored number text 2 body ann (admin ∷ []) with_bob
      60 shifted-IsCodec bob_hashed refl bob_created

abbrev fresh : Fresh
fresh = record { now = 100; token_hash = 77; csrf_token = 78; user_agent = none; ip = none }

abbrev old_session : Session
old_session = record {
  token_hash = 50;
  user_id = 1;
  csrf_token = 51;
  expires_at = 900;
  last_seen_at = 90;
  user_agent = none;
  ip = none;
}

abbrev store : Store
store = record { users = admin ∷ []; sessions = old_session ∷ [] }

abbrev principal : Principal
principal = principal_of admin

ann_signed : (login hash verify fresh ann (codes "password") store).1 ≡ signed_in principal
unfolding login text_eq lower
ann_signed = refl

no_session : find_session 77 store.sessions ≡ none
unfolding find_session
no_session = refl

ann_alone :
    (u : User)
    → get_user ann (login hash verify fresh ann (codes "password") store).0.users ≡ some u
    → find_id u.id (login hash verify fresh ann (codes "password") store).0.users ≡ some u
unfolding login text_eq lower find_named find_id
ann_alone u h =
    let same : passed_attempt 100 admin ≡ u = cc in
    subst (λ v. find_id v.id (passed_attempt 100 admin ∷ []) ≡ some v) same refl

login_resolves_example :
    ((resolve_session 200 77
        (login hash verify fresh ann (codes "password") store).0.users
        (login hash verify fresh ann (codes "password") store).0.sessions).0
      ≡ some (principal, 78))
    × ((resolve_session 200 77
          (login hash verify fresh ann (codes "password") store).0.users
          (logout (some 77) (login hash verify fresh ann (codes "password") store).0).0.sessions).0
        ≡ none)
login_resolves_example =
    login_resolves hash verify fresh ann (codes "password") store principal 200 ann_signed
      no_session ann_alone (omega arith)

ann_changed :
    (change_password hash verify fresh principal (codes "password") (codes "different") store).1
    ≡ changed
unfolding change_password text_eq lower
ann_changed = refl

change_password_revokes_example :
    ((authenticate verify 100 ann (codes "password") store.users).0 ≡ Verdict.accepted)
    × ((now token : ℕ) (us : Users) (q : Principal) (csrf : ℕ)
        → token ≢ 77
        → (resolve_session now token us
            (change_password hash verify fresh principal
              (codes "password")
              (codes "different")
              store).0.sessions).0
          ≡ some (q, csrf)
        → q.id ≢ 1)
change_password_revokes_example =
    change_password_revokes hash verify fresh principal (codes "password") (codes "different") store
      ann_changed
