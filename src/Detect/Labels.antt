-- ===== src/Detect/Labels.antt =====
-- firemex/detect/base.py: `canonical_label`, from a checkpoint's class name to a label. Names are ASCII
-- texts.
use mathlib.Core.List.{reverse}
use fireme_x.Base.{
  Option-cases, All, ℕ, ◌≡◌, refl, sym, ◌∙◌, ap, Bool, true, false, ◌&&◌, ◌||◌, Option, none, some,
  List, [], ◌∷◌, map, leb, ◌==◌, if◌then◌else◌, arith, Bool-cases, inl, inr,
}
use fireme_x.Accounts.Text.{text_eq_iff, Text, text_eq, lower, codes}
use fireme_x.Detect.Frames.{Label}

-- what `str.isspace` holds of, in ASCII
abbrev pub is_space : ℕ → Bool
is_space c = c == 32 || leb 9 c && leb c 13 || leb 28 c && leb c 31

abbrev pub strip_left : Text → Text
strip_left [] = []
strip_left (c ∷ s) = let rest = strip_left s in if is_space c then rest else c ∷ s

-- `str.strip`
abbrev pub strip : Text → Text
strip s = reverse (strip_left (reverse (strip_left s)))

-- `raw.strip().lower().replace("-", " ")`
unfoldable pub key_of : Text → Text
key_of raw = map (λ c. if c == 45 then 32 else c) (lower (strip raw))

-- `LABEL_ALIASES`
abbrev aliases : List (Text × Label)
aliases =
    (codes "fire", Label.fire)
    ∷ (codes "fires", Label.fire)
    ∷ (codes "flame", Label.fire)
    ∷ (codes "flames", Label.fire)
    ∷ (codes "active flames", Label.fire)
    ∷ (codes "active_flames", Label.fire)
    ∷ (codes "fire_indicator", Label.fire)
    ∷ (codes "fire indicators", Label.fire)
    ∷ (codes "smoke", Label.smoke)
    ∷ (codes "smokes", Label.smoke)
    ∷ (codes "smoke plume", Label.smoke)
    ∷ (codes "smoke_plume", Label.smoke)
    ∷ (codes "smoke plumes", Label.smoke)
    ∷ (codes "default", Label.smoke)
    ∷ []

abbrev tokens : List (Text × Label)
tokens =
    (codes "fire", Label.fire) ∷ (codes "flame", Label.fire) ∷ (codes "smoke", Label.smoke) ∷ []

-- the first entry whose text passes a test
unfoldable pub first_label : (Text → Bool) → List (Text × Label) → Option Label
first_label p [] = none
first_label p ((t, l) ∷ rest) = let later = first_label p rest in if p t then some l else later

unfoldable pub starts_with : Text → Text → Bool
starts_with [] s = true
starts_with (c ∷ t) [] = false
starts_with (c ∷ t) (d ∷ s) = let rest = starts_with t s in (c == d) && rest

-- `token in key`
unfoldable pub has_text : Text → Text → Bool
has_text t [] = starts_with t []
has_text t (c ∷ s) = let later = has_text t s in starts_with t (c ∷ s) || later

or_token : Option Label → Text → Option Label
or_token (some l) key = some l
or_token none key = first_label (λ t. has_text t key) tokens

unfoldable pub canonical_label : Text → Option Label
unfolding key_of or_token
canonical_label raw =
    let key = key_of raw in or_token (first_label (λ t. text_eq key t) aliases) key

-- the label that the words of a key call for
abbrev pub by_words : Text → Option Label
by_words key =
    if has_text (codes "fire") key || has_text (codes "flame") key
    then some Label.fire
    else if has_text (codes "smoke") key || text_eq key (codes "default")
    then some Label.smoke
    else none

-- an alias calls for its own label
found-by_words :
    (key : Text) (entries : List (Text × Label)) (l : Label)
    → All (λ e. by_words e.0 ≡ some e.1) entries
    → first_label (λ t. text_eq key t) entries ≡ some l
    → by_words key ≡ some l
unfolding first_label
found-by_words key [] l agree found = cc
found-by_words key ((t, label) ∷ rest) l agree found = elim (Bool-cases (text_eq key t)) [
  | inl same ↦ ap by_words ((text_eq_iff key t).0 same) ∙ agree.0 ∙ (rw same at found)
  | inr other ↦ found-by_words key rest l agree.1 (rw other at found)
]

none-All :
    (p : Text → Bool) (entries : List (Text × Label))
    → first_label p entries ≡ none
    → All (λ e. p e.0 ≡ false) entries
unfolding first_label
none-All p [] missing = tt
none-All p ((t, label) ∷ rest) missing = elim (Bool-cases (p t)) [
  | inl hit ↦ cc (rw hit at missing)
  | inr miss ↦ (miss, none-All p rest (rw miss at missing))
]

aliases_agree : All (λ e. by_words e.0 ≡ some e.1) aliases
unfolding has_text starts_with text_eq
aliases_agree = (
  refl,
  (
    refl,
    (
      refl,
      (refl, (refl, (refl, (refl, (refl, (refl, (refl, (refl, (refl, (refl, (refl, tt))))))))))),
    ),
  ),
)

tokens-by_words :
    (key : Text)
    → text_eq key (codes "default") ≡ false
    → first_label (λ t. has_text t key) tokens ≡ by_words key
unfolding first_label
tokens-by_words key other = ground arith

-- A class name becomes fire exactly when its text, trimmed, in lower case and with spaces for dashes,
-- contains "fire" or "flame"; else smoke exactly when that contains "smoke" or is "default"; every
-- other name is dropped.
pub canonical_label-by_words : (raw : Text) → canonical_label raw ≡ by_words (key_of raw)
unfolding canonical_label or_token
canonical_label-by_words raw =
    let key : Text = key_of raw in
    elim (Option-cases (first_label (λ t. text_eq key t) aliases)) [
      | inl missing ↦
          let all = none-All (λ t. text_eq key t) aliases missing in
          rw missing (tokens-by_words key all.1.1.1.1.1.1.1.1.1.1.1.1.1.0)
      | inr (l, found) ↦ rw found (sym (found-by_words key aliases l aliases_agree found))
    ]
