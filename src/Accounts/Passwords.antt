-- ===== src/Accounts/Passwords.antt =====
-- firemex/auth.py: `hash_password` and `verify_password`. scrypt and base64 are parameters, and so is the
-- salt; an exception is `none`.
use fireme_x.Base.{
  ℕ, ◌+◌, ◌-◌, ◌*◌, ◌≡◌, refl, sym, ◌∙◌, ap, Bool, true, false, ◌&&◌, ◌||◌, Option, none, some,
  List, [], ◌∷◌, ◌++◌, arith, leb, ◌==◌, if◌then◌else◌, any, length, is_empty, Option-cases, inl,
  inr,
}
use fireme_x.Base.Options.{◌>>=◌}
use fireme_x.Accounts.Text.{Text, text_eq, text_eq_iff, codes}

abbrev pub Bytes : Type 0
Bytes = List ℕ

-- the cost of a hash: n, r, p, the length of the digest and the memory that is allowed
pub record Cost : Type 0 where
  pub n : ℕ
  pub r : ℕ
  pub p : ℕ
  pub dklen : ℕ
  pub maxmem : ℕ

-- `hashlib.scrypt`, and base64 both ways
pub record Codec : Type 0 where
  pub scrypt : Text → Bytes → Cost → Option Bytes
  pub b64encode : Bytes → Text
  pub b64decode : Text → Option Bytes

-- what their documentation says: a digest has the length asked for, decoding gives back what was
-- encoded, and no encoding has a "$"
pub record IsCodec (c : Codec) : Type 0 where
  pub sized :
      (p : Text) (salt : Bytes) (k : Cost) (d : Bytes)
      → c.scrypt p salt k ≡ some d
      → length d ≡ k.dklen
  pub decodes : (b : Bytes) → c.b64decode (c.b64encode b) ≡ some b
  pub plain : (b : Bytes) → any (λ x. x == 36) (c.b64encode b) ≡ false

-- `_SCRYPT_N`, `_SCRYPT_R`, `_SCRYPT_P`, `_DKLEN` and `_MAXMEM`
abbrev pub scrypt_n : ℕ
scrypt_n = 32768

abbrev pub scrypt_r : ℕ
scrypt_r = 8

abbrev pub scrypt_p : ℕ
scrypt_p = 1

abbrev pub cost : Cost
cost = record {
  n = scrypt_n;
  r = scrypt_r;
  p = scrypt_p;
  dklen = 32;
  maxmem = 128 * scrypt_r * scrypt_n * 2;
}

-- `"$".join(parts)`
unfoldable pub join : List Text → Text
join [] = []
join (t ∷ []) = t
join (t ∷ u ∷ ts) = t ++ 36 ∷ join (u ∷ ts)

cons_part : ℕ → List Text → List Text
cons_part c [] = (c ∷ []) ∷ []
cons_part c (t ∷ ts) = (c ∷ t) ∷ ts

-- `encoded.split("$")`
unfoldable pub split : Text → List Text
unfolding cons_part
split [] = [] ∷ []
split (c ∷ s) = let rest = split s in if c == 36 then [] ∷ rest else cons_part c rest

-- `int(raw)`, of a text of digits
digits : ℕ → Text → Option ℕ
digits n [] = some n
digits n (c ∷ s) =
    let rest = digits (n * 10 + (c - 48)) s in if leb 48 c && leb c 57 then rest else none

unfoldable pub parse_int : Text → Option ℕ
unfolding digits
parse_int [] = none
parse_int (c ∷ s) = digits 0 (c ∷ s)

-- a digest with its parameters and its salt, as it is stored
unfoldable pub encode : Codec → Bytes → Bytes → Text
unfolding join
encode c salt digest = join (
    codes "scrypt"
    ∷ codes "32768"
    ∷ codes "8"
    ∷ codes "1"
    ∷ c.b64encode salt
    ∷ c.b64encode digest
    ∷ [])

-- `hash_password`, with the salt that was drawn
unfoldable pub hash_password : Codec → Bytes → Text → Option Text
unfolding encode
hash_password c salt [] = none
hash_password c salt (x ∷ p) = do digest ← c.scrypt (x ∷ p) salt cost; some (encode c salt digest)

-- the digest of a password under the stored parameters, against the stored one
check_digest : Codec → Text → Text → Text → Text → Text → Text → Option Bool
unfolding parse_int
check_digest c p n_raw r_raw p_raw salt_b64 hash_b64 = do
  salt ← c.b64decode salt_b64
  expected ← c.b64decode hash_b64
  n ← parse_int n_raw
  r ← parse_int r_raw
  q ← parse_int p_raw
  actual ←
      c.scrypt p salt
        (record { n = n; r = r; p = q; dklen = length expected; maxmem = 128 * r * n * 2 })
  some (text_eq actual expected)

or_false : Option Bool → Bool
or_false none = false
or_false (some b) = b

check_parts : Codec → Text → List Text → Bool
unfolding check_digest or_false
check_parts c p (scheme ∷ n ∷ r ∷ q ∷ salt ∷ hash ∷ []) =
    if text_eq scheme (codes "scrypt") then or_false (check_digest c p n r q salt hash) else false
check_parts c p _ = false

-- `verify_password`
unfoldable pub verify_password : Codec → Text → Text → Bool
unfolding check_parts split
verify_password c p encoded =
    if is_empty p || is_empty encoded then false else check_parts c p (split encoded)

split-join : (t s : Text) → any (λ x. x == 36) t ≡ false → split (t ++ 36 ∷ s) ≡ t ∷ split s
unfolding split cons_part
split-join [] s h = refl
split-join (c ∷ t) s h = ground (arith, split-join t s)

split-plain : (t : Text) → any (λ x. x == 36) t ≡ false → split t ≡ t ∷ []
unfolding split cons_part
split-plain [] h = refl
split-plain (c ∷ t) h = ground (arith, split-plain t)

split-encode :
    (c : Codec) (salt digest : Bytes) (laws : IsCodec c)
    → split (encode c salt digest)
      ≡ codes "scrypt"
        ∷ codes "32768"
        ∷ codes "8"
        ∷ codes "1"
        ∷ c.b64encode salt
        ∷ c.b64encode digest
        ∷ []
unfolding encode join split cons_part
split-encode c salt digest laws =
    ap (λ l. codes "scrypt" ∷ codes "32768" ∷ codes "8" ∷ codes "1" ∷ l)
      (split-join (c.b64encode salt) (c.b64encode digest) (laws.plain salt)
        ∙ ap (λ l. c.b64encode salt ∷ l) (split-plain (c.b64encode digest) (laws.plain digest)))

is_empty-encode : (c : Codec) (salt digest : Bytes) → is_empty (encode c salt digest) ≡ false
unfolding encode join
is_empty-encode c salt digest = refl

check_digest-own :
    (c : Codec) (salt digest : Bytes) (p : Text)
    → IsCodec c
    → c.scrypt p salt cost ≡ some digest
    → check_digest c p
        (codes "32768")
        (codes "8")
        (codes "1")
        (c.b64encode salt)
        (c.b64encode digest)
      ≡ some true
unfolding check_digest parse_int digits
check_digest-own c salt digest p laws h =
    rw
      (
        laws.decodes salt,
        laws.decodes digest,
        laws.sized p salt cost digest h,
        h,
        (text_eq_iff digest digest).1 refl,
      )
      refl

verify_password-encode :
    (c : Codec) (salt digest : Bytes) (x : ℕ) (p : Text)
    → IsCodec c
    → c.scrypt (x ∷ p) salt cost ≡ some digest
    → verify_password c (x ∷ p) (encode c salt digest) ≡ true
unfolding verify_password check_parts or_false
verify_password-encode c salt digest x p laws h =
    rw
      (
        is_empty-encode c salt digest,
        split-encode c salt digest laws,
        (text_eq_iff (codes "scrypt") (codes "scrypt")).1 refl,
        check_digest-own c salt digest (x ∷ p) laws h,
      )
      refl

-- A password verifies against its own hash, whatever salt was drawn.
pub verify_password-hash :
    (c : Codec) (salt : Bytes) (p encoded : Text)
    → IsCodec c
    → hash_password c salt p ≡ some encoded
    → verify_password c p encoded ≡ true
unfolding hash_password
verify_password-hash c salt [] encoded laws h = cc
verify_password-hash c salt (x ∷ p) encoded laws h =
    elim (Option-cases (c.scrypt (x ∷ p) salt cost)) [
      | inl e ↦ ground arith
      | inr (digest, e) ↦
          let own : encode c salt digest ≡ encoded = ground arith in
          ap (verify_password c (x ∷ p)) (sym own) ∙ verify_password-encode c salt digest x p laws e
    ]
