-- ===== src/Detect/Onnx/Decode/Valid.antt =====
-- What decoding (firemex/detect/onnx_backend.py) returns: detections inside the frame, of positive area,
-- that reach the floor; and when it raises nothing.
use fireme_x.Base.{
  keep-All, All-mono, not, any, refl, false, ltb-false, ◌||◌, ℕ, ◌*◌, ◌≤◌, ◌<◌, ◌≡◌, Bool, true,
  Option, none, some, List, [], ◌∷◌, ◌++◌, arith, All, All-append, keep, is_empty, Bool-cases, inl,
  inr, if◌then◌else◌,
}
use fireme_x.Base.Int.{ -ℤ_mono, scale_by_mono, div_by_mono, ℤ, pos, pos_part, ◌≤ℤ◌, div_by, leb_ℤ}
use fireme_x.Detect.Geometry.{BBox, IsBox, area, new_box}
use fireme_x.Detect.Frames.{Label, Detection}
use fireme_x.Detect.Onnx.Suppression.{FrameBox}
use fireme_x.Detect.Onnx.Cells.{
  round_cell, clip_checked, OnnxDetector, Matrix, Transform, clipped, checked, normalised,
  if_visible, detect, each, below, unpad, label_at,
}
use fireme_x.Detect.Onnx.Decode.{
  row_score, detect_labelled, Ratio, detect_sized, end2end_row, decode_end2end, unpadded, corners,
}

module _ (one floor : ℕ) where
  pub record IsVisible (d : Detection) : Type 0 where
    pub sure : floor ≤ d.confidence
    pub box : IsBox d.box
    pub right : d.box.x2 ≤ one
    pub bottom : d.box.y2 ≤ one
    pub seen : 0 < area d.box

  -- a loop that raises nothing and whose detections are visible
  abbrev pub Yields : Option (List Detection) → Type 0
  Yields none = ⊥
  Yields (some ds) = All IsVisible ds

  join-Yields :
      (o rest : Option (List Detection))
      → Yields o
      → Yields rest
      → Yields (elim o [
        | none ↦ none
        | some found ↦ elim rest [ none ↦ none | some more ↦ some (found ++ more) ]
      ])
  join-Yields none rest h k = h
  join-Yields (some found) none h k = k
  join-Yields (some found) (some more) h k = All-append IsVisible found more h k

  pub each-Yields :
      (round : ℕ → Option (List Detection)) (is : List ℕ)
      → All (λ i. Yields (round i)) is
      → Yields (each round is)
  unfolding each
  each-Yields round [] h = tt
  each-Yields round (i ∷ is) h =
      join-Yields (round i) (each round is) h.0 (each-Yields round is h.1)

-- a box whose corners are in order
abbrev pub Ordered : FrameBox → Type 0
Ordered b = (b.x1 ≤ℤ b.x2) × (b.y1 ≤ℤ b.y2)

unpad_mono :
    (one pad : ℕ) (scale : Ratio) (a b : ℤ)
    → a ≤ℤ b
    → unpad one pad scale a ≤ℤ unpad one pad scale b
unfolding unpad
unpad_mono one pad scale a b h =
    div_by_mono _ _ scale.num (scale_by_mono _ _ scale.den (-ℤ_mono a b (pos (pad * one)) h))

pub unpadded-Ordered :
    (one : ℕ) (t : Transform) (b : FrameBox) → Ordered b → Ordered (unpadded one t b)
unpadded-Ordered one t b h =
    (unpad_mono one t.pad_x t.scale b.x1 b.x2 h.0, unpad_mono one t.pad_y t.scale b.y1 b.y2 h.1)

-- a box in order is clipped into the frame
abbrev Inside : ℕ → Option BBox → Type 0
Inside one none = ⊥
Inside one (some box) = IsBox box × (box.x2 ≤ one) × (box.y2 ≤ one)

clipped-Inside : (one : ℕ) (b : FrameBox) → Ordered b → Inside one (clipped one b)
unfolding clipped new_box
clipped-Inside one b h = ground arith

checked-Ordered : (b : FrameBox) → Ordered b → checked b ≡ some b
unfolding checked
checked-Ordered b h = ground arith

normalised-Inside :
    (one : ℕ) (t : Transform) (b : FrameBox) → Ordered b → Inside one (normalised one t b)
unfolding normalised clip_checked
normalised-Inside one t b h =
    let c : FrameBox = record {
      x1 = div_by b.x1 t.width;
      y1 = div_by b.y1 t.height;
      x2 = div_by b.x2 t.width;
      y2 = div_by b.y2 t.height;
    } in
    let wide : c.x1 ≤ℤ c.x2 = div_by_mono b.x1 b.x2 t.width h.0 in
    let tall : c.y1 ≤ℤ c.y2 = div_by_mono b.y1 b.y2 t.height h.1 in
    rw (checked-Ordered c (wide, tall), clip_checked) (clipped-Inside one c (wide, tall))

visible-Yields :
    (one floor : ℕ) (label : Label) (c : ℕ) (o : Option BBox)
    → floor ≤ c
    → Inside one o
    → Yields one floor (elim o [ none ↦ none | some box ↦ some (if_visible label c box) ])
unfolding if_visible
visible-Yields one floor label c none le h = h
visible-Yields one floor label c (some box) le h = ground arith

pub detect-Yields :
    (one floor : ℕ) (t : Transform) (label : Option Label) (c : ℕ) (b : FrameBox)
    → floor ≤ c
    → Ordered b
    → Yields one floor (detect one t label c b)
unfolding detect
detect-Yields one floor t none c b le h = tt
detect-Yields one floor t (some label) c b le h =
    visible-Yields one floor label c (normalised one t b) le (normalised-Inside one t b h)

detect_sized-Yields :
    (one floor : ℕ) (t : Transform) (label : Label) (c : ℕ) (b : FrameBox)
    → floor ≤ c
    → Yields one floor (detect_sized one t label c b)
unfolding detect_sized
detect_sized-Yields one floor t label c b le =
    elim (Bool-cases (leb_ℤ b.x2 b.x1 || leb_ℤ b.y2 b.y1)) [
      | inl flat ↦ rw flat tt
      | inr sized ↦ rw sized (detect-Yields one floor t (some label) c b le (ground arith))
    ]

detect_labelled-Yields :
    (one floor : ℕ) (t : Transform) (label : Option Label) (c : ℕ) (b : FrameBox)
    → floor ≤ c
    → Yields one floor (detect_labelled one t label c b)
unfolding detect_labelled
detect_labelled-Yields one floor t none c b le = tt
detect_labelled-Yields one floor t (some label) c b le =
    detect_sized-Yields one floor t label c b le

pub floor-le-score :
    (floor : ℕ) (score : ℤ) → leb_ℤ (pos floor) score ≡ true → floor ≤ pos_part score
floor-le-score floor score h = ground arith

if_empty-Yields :
    (one floor : ℕ) (round : ℕ → Option (List Detection)) (kept : List ℕ)
    → All (λ i. Yields one floor (round i)) kept
    → Yields one floor (if is_empty kept then some [] else each round kept)
if_empty-Yields one floor round [] h = tt
if_empty-Yields one floor round (i ∷ is) h = each-Yields one floor round (i ∷ is) h

-- a row of the end-to-end layout whose score reaches the floor
end2end_row-Yields :
    (d : OnnxDetector) (m : Matrix) (t : Transform) (i : ℕ)
    → 6 ≤ m.columns
    → leb_ℤ (pos d.confidence_floor) (m.cell i 4) ≡ true
    → not (m.is_finite i 5) ≡ false
    → Yields d.one d.confidence_floor (end2end_row d m t i)
unfolding end2end_row
end2end_row-Yields d m t i wide reaches finite =
    rw (ltb-false m.columns 6 wide, finite)
      (detect_labelled-Yields d.one d.confidence_floor t
        (label_at d.names (round_cell d.one (m.cell i 5))) (pos_part (row_score m i))
        (unpadded d.one t (corners m i)) (floor-le-score d.confidence_floor (m.cell i 4) reaches))

end2end_row_raises :
    (d : OnnxDetector) (m : Matrix) (t : Transform) (i : ℕ)
    → 6 ≤ m.columns
    → not (m.is_finite i 5) ≡ true
    → end2end_row d m t i ≡ none
unfolding end2end_row
end2end_row_raises d m t i wide broken = rw (ltb-false m.columns 6 wide, broken) refl

join-none :
    (o rest : Option (List Detection))
    → rest ≡ none
    → elim o [
      | none ↦ none
      | some found ↦ elim rest [ none ↦ none | some more ↦ some (found ++ more) ]
    ]
      ≡ none
join-none none rest h = refl
join-none (some found) rest h = rw h refl

first-none :
    (o rest : Option (List Detection))
    → o ≡ none
    → elim o [
      | none ↦ none
      | some found ↦ elim rest [ none ↦ none | some more ↦ some (found ++ more) ]
    ]
      ≡ none
first-none none rest h = refl
first-none (some found) rest h = cc

each_raises :
    (bad : ℕ → Bool) (round : ℕ → Option (List Detection)) (is : List ℕ)
    → ((i : ℕ) → bad i ≡ true → round i ≡ none)
    → any bad is ≡ true
    → each round is ≡ none
unfolding each
each_raises bad round [] h k = cc
each_raises bad round (i ∷ is) h k = elim (Bool-cases (bad i)) [
  | inl here ↦ first-none (round i) (each round is) (h i here)
  | inr there ↦ join-none (round i) (each round is) (each_raises bad round is h (rw there at k))
]

-- the rows that reach the floor
abbrev pub reaching : OnnxDetector → Matrix → List ℕ
reaching d m = keep (λ i. leb_ℤ (pos d.confidence_floor) (m.cell i 4)) (below m.rows)

-- whether the class id of one of these rows is no finite number
abbrev pub has_broken_class : OnnxDetector → Matrix → Bool
has_broken_class d m = any (λ i. not (m.is_finite i 5)) (reaching d m)

All-any : (bad : ℕ → Bool) (is : List ℕ) → any bad is ≡ false → All (λ i. bad i ≡ false) is
All-any bad [] h = tt
All-any bad (i ∷ is) h = (ground arith, All-any bad is (ground arith))

All-both {κ ι} :
    (P : ℕ → Type κ) (Q : ℕ → Type ι) (is : List ℕ) → All P is → All Q is → All (λ i. P i × Q i) is
All-both P Q [] h k = tt
All-both P Q (i ∷ is) h k = ((h.0, k.0), All-both P Q is h.1 k.1)

if_empty_raises :
    (bad : ℕ → Bool) (round : ℕ → Option (List Detection)) (kept : List ℕ)
    → any bad kept ≡ true
    → each round kept ≡ none
    → (if is_empty kept then some [] else each round kept) ≡ none
if_empty_raises bad round [] h k = absurd (cc h)
if_empty_raises bad round (i ∷ is) h k = k

-- An end-to-end output with its six columns, whose scores and coordinates are finite numbers, is decoded
-- without an exception where the class ids of the rows that reach the floor are finite: each detection
-- then reaches the confidence floor, and its box lies in the frame and has a positive area. Where one of
-- these class ids is not finite, decoding raises.
pub decode_end2end-Yields :
    (d : OnnxDetector) (m : Matrix) (t : Transform)
    → 6 ≤ m.columns
    → (has_broken_class d m ≡ false → Yields d.one d.confidence_floor (decode_end2end d m t))
      × (has_broken_class d m ≡ true → decode_end2end d m t ≡ none)
unfolding decode_end2end
decode_end2end-Yields d m t wide =
    let reaches : ℕ → Bool = λ i. leb_ℤ (pos d.confidence_floor) (row_score m i) in
    let broken : ℕ → Bool = λ i. not (m.is_finite i 5) in
    let kept : List ℕ = keep reaches (below m.rows) in
    let row : ℕ → Option (List Detection) = end2end_row d m t in
    (
      λ finite. rw (ltb-false m.columns 5 (omega arith)) (
          if_empty-Yields d.one d.confidence_floor row kept (
            All-mono (λ i. (reaches i ≡ true) × (broken i ≡ false))
              (λ i. Yields d.one d.confidence_floor (row i)) kept
              (λ i h. end2end_row-Yields d m t i wide h.0 h.1)
              (All-both (λ i. reaches i ≡ true) (λ i. broken i ≡ false) kept
                (keep-All reaches (below m.rows)) (All-any broken kept finite)))),
      λ found. rw (ltb-false m.columns 5 (omega arith)) (
          if_empty_raises broken row kept found
            (each_raises broken row kept (λ i. end2end_row_raises d m t i wide) found)),
    )
