-- ===== src/Accounts/Registration.antt =====
-- firemex/api/routes_users.py: the creation and the unlocking of users, with `validate_username` of
-- firemex/auth.py. The hash of a password and the id that the database gives are parameters.
use fireme_x.Base.{
  ℕ, ◌≤◌, ◌≡◌, refl, sym, ◌∙◌, ap, Bool, true, not, ◌&&◌, ◌||◌, Option, none, some, [], ◌∷◌, ◌++◌,
  arith, leb, ◌==◌, if◌then◌else◌, length, Bool-cases, inl, inr,
}
use fireme_x.Accounts.Text.{Text, text_eq, lower, lower-lower, text_eq_iff}
use fireme_x.Detect.Labels.{strip}
use fireme_x.Accounts.Roles.{Role, is_role, validate_password}
use fireme_x.Accounts.Passwords.{
  Bytes, Codec, IsCodec, hash_password, verify_password, verify_password-hash,
}
use fireme_x.Accounts.Users.{
  User, Users, Verdict, find_named, get_user, new_user, create_user, update_user, authenticate,
  authenticate_row, attempt,
}

-- `[a-zA-Z0-9._-]`
abbrev pub is_name_code : ℕ → Bool
is_name_code c =
    leb 97 c && leb c 122
    || leb 65 c && leb c 90
    || leb 48 c && leb c 57
    || c == 46
    || c == 95
    || c == 45

abbrev pub all_codes : Text → Bool
all_codes [] = true
all_codes (c ∷ s) = let rest = all_codes s in is_name_code c && rest

-- `validate_username`: `none` is an AuthError
unfoldable pub validate_username : Text → Option Text
validate_username raw =
    let name = strip raw in
    if leb 3 (length name) && leb (length name) 32 && all_codes name
    then some (lower name)
    else none

pub record CreateUserRequest : Type 0 where
  pub username : Text
  pub password : Text
  pub role : Role

pub data Creation : Type 0 where
  created : Users → Creation
  bad_request conflict : Creation

creation_reply : Option Users → Creation
creation_reply none = conflict
creation_reply (some us) = created us

module _ (hash_password : Text → ℕ) where
  create_valid : ℕ → CreateUserRequest → Text → Users → Option Text → Option Text → Creation
  unfolding creation_reply create_user
  create_valid id body creator us (some name) (some password) =
      if not (is_role body.role)
      then bad_request
      else creation_reply (create_user id name (hash_password password) body.role (some creator) us)
  create_valid id body creator us _ _ = bad_request

  -- the route `create_user`, with the caller's name
  unfoldable pub create_user_route : ℕ → CreateUserRequest → Text → Users → Creation
  unfolding create_valid validate_username validate_password
  create_user_route id body creator us =
      create_valid id body creator us (validate_username body.username)
        (validate_password body.password)

abbrev unlocked : User → User
unlocked u = record u { failed_logins = 0; locked_until = none }

-- the route `unlock_user`: `none` is HTTP 404
unfoldable pub unlock_user : Text → Users → Option Users
unfolding update_user
unlock_user name us = update_user name unlocked us

find_named-append :
    (name : Text) (us : Users) (u : User)
    → find_named name us ≡ none
    → text_eq u.username name ≡ true
    → find_named name (us ++ u ∷ []) ≡ some u
unfolding find_named
find_named-append name [] u h e = rw e refl
find_named-append name (v ∷ us) u h e = ground (arith, find_named-append name us u)

-- what a creation has done
pub record Created (hash_password : Text → ℕ) (id : ℕ) (body : CreateUserRequest) (creator : Text)
    (us us' : Users) : Type 0 where
  pub name : Text
  pub valid : validate_username body.username ≡ some name
  pub long : 8 ≤ length body.password
  pub known : is_role body.role ≡ true
  pub untaken : get_user name us ≡ none
  pub rows :
      us' ≡ us ++ new_user id name (hash_password body.password) body.role (some creator) ∷ []

module _ (hash_password : Text → ℕ) (id : ℕ) (body : CreateUserRequest) (creator : Text)
    (us us' : Users) where
  create_valid-Created :
      (o q : Option Text)
      → validate_username body.username ≡ o
      → validate_password body.password ≡ q
      → create_valid hash_password id body creator us o q ≡ created us'
      → Created hash_password id body creator us us'
  unfolding create_valid creation_reply create_user validate_password
  create_valid-Created none q e f h = cc
  create_valid-Created (some name) none e f h = cc
  create_valid-Created (some name) (some password) e f h = record {
    name = name;
    valid = e;
    long = ground arith;
    known = ground arith;
    untaken = ground arith;
    rows = ground arith;
  }

lower-valid : (raw name : Text) → validate_username raw ≡ some name → lower name ≡ name
unfolding validate_username
lower-valid raw name h =
    elim (Bool-cases
      (leb 3 (length (strip raw)) && leb (length (strip raw)) 32 && all_codes (strip raw))) [
        | inl fits ↦
            let e : lower (strip raw) ≡ name = cc (rw fits at h) in
            ap lower (sym e) ∙ lower-lower (strip raw) ∙ e
        | inr bad ↦ cc (rw bad at h)
      ]

attempt_new :
    (now : ℕ) (matches : Bool) (id : ℕ) (name : Text) (hash : ℕ) (role : Role)
    (creator : Option Text)
    → matches ≡ true
    → (attempt now matches (new_user id name hash role creator)).0 ≡ Verdict.accepted
unfolding attempt
attempt_new now matches id name hash role creator h = rw h refl

authenticate-Created :
    (hash_password : Text → ℕ) (verify : Text → ℕ → Bool) (id : ℕ) (body : CreateUserRequest)
    (creator : Text) (us us' : Users) (now : ℕ)
    → verify body.password (hash_password body.password) ≡ true
    → (made : Created hash_password id body creator us us')
    → (authenticate verify now made.name body.password us').0 ≡ Verdict.accepted
unfolding authenticate
authenticate-Created hash_password verify id body creator us us' now sound made =
    let hash : ℕ = hash_password body.password in
    let u : User = new_user id made.name hash body.role (some creator) in
    let same : lower made.name ≡ made.name = lower-valid body.username made.name made.valid in
    let found : find_named (lower made.name) us' ≡ some u =
      ap (find_named (lower made.name)) made.rows
      ∙ find_named-append (lower made.name) us u made.untaken
          ((text_eq_iff made.name (lower made.name)).1 (sym same)) in
    ap (λ o. (authenticate_row verify now (lower made.name) body.password us' o).0) found
    ∙ attempt_new now (verify body.password hash) id made.name hash body.role (some creator) sound

-- an encoded hash, where the hashing did not raise
abbrev pub or_empty : Option Text → Text
or_empty none = []
or_empty (some t) = t

-- A user who is created has a valid name in lower case, a password of at least eight characters and one
-- of the three roles, stands alone under that name as the last row, and can log in with the password
-- from then on. Hash and verification are `hash_password`, with the salt that was drawn, and
-- `verify_password` of firemex/auth.py, over the codec; the hash that is drawn for the password does not
-- raise, and the column gives back the text that was stored.
pub create_user_route_authenticates :
    (c : Codec) (salt : Bytes) (encoded : Text) (number : Text → ℕ) (text : ℕ → Text) (id : ℕ)
    (body : CreateUserRequest) (creator : Text) (us us' : Users) (now : ℕ)
    → IsCodec c
    → hash_password c salt body.password ≡ some encoded
    → text (number encoded) ≡ encoded
    → let hashing : Text → ℕ = λ p. number (or_empty (hash_password c salt p)) in
      create_user_route hashing id body creator us ≡ created us'
      → (made : Created hashing id body creator us us') × ((authenticate
            (λ p n. verify_password c p (text n))
            now
            made.name
            body.password
            us').0
          ≡ Verdict.accepted)
unfolding create_user_route
create_user_route_authenticates c salt encoded number text id body creator us us' now laws hashed
      stored h =
    let hashing : Text → ℕ = λ p. number (or_empty (hash_password c salt p)) in
    let made =
      create_valid-Created hashing id body creator us us' (validate_username body.username)
        (validate_password body.password) refl refl h in
    let column : text (hashing body.password) ≡ encoded =
      ap (λ o. text (number (or_empty o))) hashed ∙ stored in
    let sound : verify_password c body.password (text (hashing body.password)) ≡ true =
      ap (verify_password c body.password) column
      ∙ verify_password-hash c salt body.password encoded laws hashed in
    (
      made,
      authenticate-Created hashing (λ p n. verify_password c p (text n)) id body creator us us' now
          sound made,
    )
