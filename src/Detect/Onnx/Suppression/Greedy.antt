-- ===== src/Detect/Onnx/Suppression/Greedy.antt =====
-- What `nms` (firemex/detect/onnx_backend.py) chooses: the loop that filters the rest after each choice
-- against the plain definition that asks of each index whether an earlier choice overlaps it.
use mathlib.Core.Path.{subst}
use mathlib.Core.List.Memᴰ
use mathlib.Core.List.{reverse, Memᴰ}
use fireme_x.Base.Ratio.{Ratio}
use fireme_x.Base.{
  ◌⊎◌, All-append, length-keep_le, ℕ, zero, suc, ◌<◌, ◌≡◌, refl, sym, ap, ◌∙◌, Bool, true, false,
  ◌&&◌, Option, none, some, List, [], ◌∷◌, ◌++◌, arith, length, keep, if◌then◌else◌, Bool-cases,
  inl, inr, All,
}
use fireme_x.Detect.Onnx.Suppression.{reverse, iou_within, Ratio, FrameBox, nms_loop, nms}

module _ (within : ℕ → ℕ → Bool) where
  -- none of the chosen overlaps x
  abbrev pub clear : List ℕ → ℕ → Bool
  clear [] x = true
  clear (k ∷ ks) x = let rest = clear ks x in within k x && rest

  -- In order, an index is chosen if no index chosen before it overlaps it.
  abbrev pub greedy : List ℕ → List ℕ → List ℕ
  greedy kept [] = kept
  greedy kept (x ∷ xs) = greedy (if clear kept x then kept ++ x ∷ [] else kept) xs

  clear-append : (ks : List ℕ) (k x : ℕ) → clear (ks ++ k ∷ []) x ≡ (clear ks x && within k x)
  clear-append [] k x = ground arith
  clear-append (j ∷ ks) k x = ground (arith, clear-append ks k x)

  and_left : (a b : Bool) → (a && b) ≡ true → a ≡ true
  and_left true b h = refl
  and_left false b h = cc

  and_right : (a b : Bool) → (a && b) ≡ true → b ≡ true
  and_right true b h = h
  and_right false b h = cc

  -- one more choice
  choose : List ℕ → ℕ → List ℕ
  choose kept x = if clear kept x then kept ++ x ∷ [] else kept

  clear-choose : (kept : List ℕ) (x y : ℕ) → clear (choose kept x) y ≡ true → clear kept y ≡ true
  unfolding choose
  clear-choose kept x y h = elim (Bool-cases (clear kept x)) [
    | inl free ↦ and_left (clear kept y) (within x y) (sym (clear-append kept x y) ∙ (rw free at h))
    | inr taken ↦ rw taken at h
  ]

  -- what an earlier choice overlaps can be left out at once
  greedy-keep :
      (kept : List ℕ) (p : ℕ → Bool) (xs : List ℕ)
      → ((x : ℕ) → clear kept x ≡ true → p x ≡ true)
      → greedy kept (keep p xs) ≡ greedy kept xs
  unfolding choose
  greedy-keep kept p [] h = refl
  greedy-keep kept p (x ∷ xs) h =
      let rest = greedy-keep (choose kept x) p xs λ y c. h y (clear-choose kept x y c) in
      elim (Bool-cases (p x)) [
        | inl stays ↦ rw stays rest
        | inr goes ↦ elim (Bool-cases (clear kept x)) [
          | inl free ↦ cc (h x free)
          | inr taken ↦ rw (goes, taken) (rw taken at rest)
        ]
      ]

  All-clear :
      (kept : List ℕ) (best : ℕ) (xs : List ℕ)
      → All (λ x. clear kept x ≡ true) xs
      → All (λ x. clear (kept ++ best ∷ []) x ≡ true) (keep (within best) xs)
  All-clear kept best [] c = tt
  All-clear kept best (x ∷ xs) c = elim (Bool-cases (within best x)) [
    | inl near ↦
        rw near (clear-append kept best x ∙ rw (c.0, near) refl, All-clear kept best xs c.1)
    | inr far ↦ rw far (All-clear kept best xs c.1)
  ]

  clear-best :
      (kept : List ℕ) (best x : ℕ) → clear (kept ++ best ∷ []) x ≡ true → within best x ≡ true
  clear-best kept best x h =
      and_right (clear kept x) (within best x) (sym (clear-append kept best x) ∙ h)

  loop-greedy :
      (fuel : ℕ) (order kept : List ℕ)
      → length order < fuel
      → All (λ x. clear kept x ≡ true) order
      → nms_loop within fuel order kept ≡ some (greedy kept order)
  unfolding nms_loop
  loop-greedy zero order kept h c = absurd (omega arith)
  loop-greedy (suc fuel) [] kept h c = refl
  loop-greedy (suc fuel) (best ∷ []) kept h c = rw c.0 refl
  loop-greedy (suc fuel) (best ∷ next ∷ rest) kept h c =
      let left : List ℕ = next ∷ rest in
      loop-greedy fuel (keep (within best) left) (kept ++ best ∷ [])
        (omega (arith, length-keep_le (within best) left)) (All-clear kept best left c.1)
      ∙ ap some (
          greedy-keep (kept ++ best ∷ []) (within best) left (clear-best kept best)
          ∙ ap (λ k. greedy k left) (sym (rw c.0 refl)))

  -- no index of the list overlaps a later one
  abbrev pub Apart : List ℕ → Type 0
  Apart [] = Unit
  Apart (k ∷ ks) = All (λ x. within k x ≡ true) ks × Apart ks

  Apart-append : (ks : List ℕ) (x : ℕ) → Apart ks → clear ks x ≡ true → Apart (ks ++ x ∷ [])
  Apart-append [] x a c = (tt, tt)
  Apart-append (k ∷ ks) x a c = (
    All-append (λ y. within k y ≡ true) ks (x ∷ []) a.0 (and_left (within k x) (clear ks x) c, tt),
    Apart-append ks x a.1 (and_right (within k x) (clear ks x) c),
  )

  choose-Apart : (kept : List ℕ) (x : ℕ) → Apart kept → Apart (choose kept x)
  unfolding choose
  choose-Apart kept x a = elim (Bool-cases (clear kept x)) [
    | inl free ↦ rw free (Apart-append kept x a free)
    | inr taken ↦ rw taken a
  ]

  pub greedy-Apart : (kept xs : List ℕ) → Apart kept → Apart (greedy kept xs)
  unfolding choose
  greedy-Apart kept [] a = a
  greedy-Apart kept (x ∷ xs) a = greedy-Apart (choose kept x) xs (choose-Apart kept x a)

  -- x was chosen, or overlaps a choice
  abbrev pub Covered : List ℕ → ℕ → Type 0
  Covered ks x = Memᴰ x ks ⊎ (clear ks x ≡ false)

  clear_more : (kept : List ℕ) (x y : ℕ) → clear kept y ≡ false → clear (kept ++ x ∷ []) y ≡ false
  clear_more kept x y c = clear-append kept x y ∙ rw c refl

  choose-Covered : (kept : List ℕ) (x y : ℕ) → Covered kept y → Covered (choose kept x) y
  unfolding choose
  choose-Covered kept x y c = elim (Bool-cases (clear kept x)) [
    | inr taken ↦ rw taken c
    | inl free ↦ rw free (elim c [
      | inl chosen ↦ inl (Memᴰ.append_left (x ∷ []) chosen)
      | inr hit ↦ inr (clear_more kept x y hit)
    ])
  ]

  choose_covers : (kept : List ℕ) (x : ℕ) → Covered (choose kept x) x
  unfolding choose
  choose_covers kept x = elim (Bool-cases (clear kept x)) [
    | inr taken ↦ rw taken (inr taken)
    | inl free ↦ rw free (inl (Memᴰ.append_right kept (Memᴰ.head refl)))
  ]

  greedy_keeps : (kept xs : List ℕ) (y : ℕ) → Covered kept y → Covered (greedy kept xs) y
  unfolding choose
  greedy_keeps kept [] y c = c
  greedy_keeps kept (x ∷ xs) y c = greedy_keeps (choose kept x) xs y (choose-Covered kept x y c)

  pub greedy-Covered : (kept xs : List ℕ) (y : ℕ) → Memᴰ y xs → Covered (greedy kept xs) y
  unfolding choose
  greedy-Covered kept [] y m = elim m [ ]
  greedy-Covered kept (x ∷ xs) y (Memᴰ.head e) =
      greedy_keeps (choose kept x) xs y
        (subst (Covered (choose kept x)) (sym e) (choose_covers kept x))
  greedy-Covered kept (x ∷ xs) y (Memᴰ.tail m) = greedy-Covered (choose kept x) xs y m

  after_choose : (kept : List ℕ) (x y : ℕ) → Memᴰ y (choose kept x) → Memᴰ y kept ⊎ (y ≡ x)
  unfolding choose
  after_choose kept x y m = elim (Bool-cases (clear kept x)) [
    | inr taken ↦ inl (rw taken at m)
    | inl free ↦ elim (Memᴰ.append_cases kept (rw free at m)) [
      | inl old ↦ inl old
      | inr (Memᴰ.head e) ↦ inr e
      | inr (Memᴰ.tail none_left) ↦ elim none_left [ ]
    ]
  ]

  greedy-from : (kept xs : List ℕ) (y : ℕ) → Memᴰ y (greedy kept xs) → Memᴰ y kept ⊎ Memᴰ y xs
  unfolding choose
  greedy-from kept [] y m = inl m
  greedy-from kept (x ∷ xs) y m = elim (greedy-from (choose kept x) xs y m) [
    | inr later ↦ inr (Memᴰ.tail later)
    | inl old ↦ elim (after_choose kept x y old) [
      | inl before ↦ inl before
      | inr e ↦ inr (Memᴰ.head e)
    ]
  ]

  All-none : (xs : List ℕ) → All (λ x. clear [] x ≡ true) xs
  All-none [] = tt
  All-none (x ∷ xs) = (refl, All-none xs)

  pub nms_loop-greedy :
      (order : List ℕ) → nms_loop within (suc (length order)) order [] ≡ some (greedy [] order)
  nms_loop-greedy order = loop-greedy (suc (length order)) order [] (omega arith) (All-none order)

  -- what a suppression promises of its result
  abbrev pub Suppresses : List ℕ → Option (List ℕ) → Type 0
  Suppresses order none = ⊥
  Suppresses order (some chosen) =
      Apart chosen
      × ((x : ℕ) → Memᴰ x chosen → Memᴰ x order)
      × ((x : ℕ) → Memᴰ x order → Memᴰ x chosen ⊎ (clear chosen x ≡ false))

  pub greedy-Suppresses : (order : List ℕ) → Suppresses order (some (greedy [] order))
  greedy-Suppresses order = (
    greedy-Apart [] order tt,
    λ x m. elim (greedy-from [] order x m) [ inl nowhere ↦ elim nowhere [ ] | inr there ↦ there ],
    greedy-Covered [] order,
  )

-- the rows of `boxes` that do not overlap by more than the threshold
abbrev pub apart_by : (ℕ → FrameBox) → Ratio → ℕ → ℕ → Bool
apart_by boxes t best other = iou_within t (boxes best) (boxes other)

-- The loop ends within one round for each index and one more, and chooses just what the plain
-- definition chooses: in order of falling score, each box that no box chosen before it overlaps by
-- more than the threshold.
pub nms-greedy :
    (boxes : ℕ → FrameBox) (ascending : List ℕ) (t : Ratio)
    → nms boxes ascending t ≡ some (greedy (apart_by boxes t) [] (reverse ascending))
unfolding nms
nms-greedy boxes ascending t = nms_loop-greedy (apart_by boxes t) (reverse ascending)

-- The suppression ends; no two chosen boxes overlap by more than the threshold, every chosen index is
-- one of the given, and every box that is not chosen overlaps a chosen one by more than the threshold.
pub nms-Suppresses :
    (boxes : ℕ → FrameBox) (ascending : List ℕ) (t : Ratio)
    → Suppresses (apart_by boxes t) (reverse ascending) (nms boxes ascending t)
nms-Suppresses boxes ascending t =
    subst (Suppresses (apart_by boxes t) (reverse ascending)) (sym (nms-greedy boxes ascending t))
      (greedy-Suppresses (apart_by boxes t) (reverse ascending))
