-- ===== src/Accounts/Redaction.antt =====
-- firemex/auth.py: `redact_url`.
use fireme_x.Base.{
  ℕ, ◌≡◌, refl, ◌∙◌, ap, Bool, true, false, not, ◌&&◌, Option, none, some, [], ◌∷◌, ◌++◌, arith,
  ◌==◌, if◌then◌else◌, any,
}
use fireme_x.Accounts.Text.{Text, codes}

-- `url.partition("://")`: `none` is an empty separator
cons_scheme : ℕ → Option (Text × Text) → Option (Text × Text)
cons_scheme c none = none
cons_scheme c (some (scheme, rest)) = some (c ∷ scheme, rest)

unfoldable pub partition_scheme : Text → Option (Text × Text)
unfolding cons_scheme
partition_scheme (c ∷ d ∷ e ∷ s) =
    let later = partition_scheme (d ∷ e ∷ s) in
    if c == 58 && d == 47 && e == 47 then some ([], s) else cons_scheme c later
partition_scheme _ = none

-- `"@" in s`
abbrev pub has_at : Text → Bool
has_at s = any (λ c. c == 64) s

-- `rest.rpartition("@")[2]`
unfoldable pub host_part : Text → Text
host_part [] = []
host_part (c ∷ s) =
    let later = host_part s in if has_at s then later else if c == 64 then s else c ∷ s

redact_parts : Text → Option (Text × Text) → Text
unfolding host_part
redact_parts url none = url
redact_parts url (some (scheme, rest)) = scheme ++ (codes "://***@" ++ host_part rest)

unfoldable pub redact_url : Text → Text
unfolding redact_parts partition_scheme
redact_url url = if not (has_at url) then url else redact_parts url (partition_scheme url)

-- a scheme before "://"
partition_scheme-append :
    (scheme rest : Text)
    → any (λ c. c == 58) scheme ≡ false
    → partition_scheme (scheme ++ (codes "://" ++ rest)) ≡ some (scheme, rest)
unfolding partition_scheme cons_scheme
partition_scheme-append [] rest h = refl
partition_scheme-append (c ∷ []) rest h = ground arith
partition_scheme-append (c ∷ d ∷ []) rest h = ground arith
partition_scheme-append (c ∷ d ∷ e ∷ s) rest h =
    ground (arith, partition_scheme-append (d ∷ e ∷ s) rest)

has_at-append : (s t : Text) → has_at (s ++ 64 ∷ t) ≡ true
has_at-append [] t = refl
has_at-append (c ∷ s) t = ground (arith, has_at-append s t)

has_at_later : (s t : Text) → has_at t ≡ true → has_at (s ++ t) ≡ true
has_at_later [] t h = h
has_at_later (c ∷ s) t h = ground (arith, has_at_later s t)

host_part-append :
    (secret host : Text) → has_at host ≡ false → host_part (secret ++ 64 ∷ host) ≡ host
unfolding host_part
host_part-append [] host h = rw h refl
host_part-append (c ∷ s) host h = rw (has_at-append s host) (host_part-append s host h)

-- A URL with credentials keeps its scheme and what follows its last "@", and nothing of the
-- credentials, whatever characters they have; URLs that differ in their credentials only look the same.
pub redact_url-credentials :
    (scheme secret host : Text)
    → any (λ c. c == 58) scheme ≡ false
    → has_at host ≡ false
    → redact_url (scheme ++ (codes "://" ++ (secret ++ 64 ∷ host)))
      ≡ scheme ++ (codes "://***@" ++ host)
unfolding redact_url redact_parts
redact_url-credentials scheme secret host plain bare =
    let url : Text = scheme ++ (codes "://" ++ (secret ++ 64 ∷ host)) in
    let marked : has_at url ≡ true =
      has_at_later scheme (codes "://" ++ (secret ++ 64 ∷ host)) (has_at-append secret host) in
    ap (λ b. if not b then url else redact_parts url (partition_scheme url)) marked
    ∙ ap (redact_parts url) (partition_scheme-append scheme (secret ++ 64 ∷ host) plain)
    ∙ ap (λ h. scheme ++ (codes "://***@" ++ h)) (host_part-append secret host bare)

-- A URL without "@" is returned as it is.
pub redact_url-plain : (url : Text) → has_at url ≡ false → redact_url url ≡ url
unfolding redact_url
redact_url-plain url h = rw h refl
