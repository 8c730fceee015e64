-- ===== src/Detect/Onnx/Decode/Raw.antt =====
-- What decoding a raw output (firemex/detect/onnx_backend.py) returns, with the suppression in between.
use mathlib.Core.Path.{subst}
use mathlib.Core.List.{reverse_aux, reverse, Memᴰ}
use fireme_x.Base.{
  sym, Bool-cases, inl, inr, ℕ, zero, suc, ◌<◌, ◌≡◌, refl, Bool, true, Option, none, some, List, [],
  ◌∷◌, map, arith, All, All-append, All-keep, All-mono, keep-All, keep, length, is_empty,
}
use fireme_x.Base.Int.{ℤ, pos, pos_part, ◌≤ℤ◌, leb_ℤ, half_mono}
use fireme_x.Detect.Frames.{Detection}
use fireme_x.Detect.Onnx.Suppression.{FrameBox, nms}
use fireme_x.Detect.Onnx.Suppression.Greedy.{Suppresses, apart_by, nms-Suppresses}
use fireme_x.Detect.Onnx.Cells.{Numpy, OnnxDetector, Matrix, Transform, below, label_at}
use fireme_x.Detect.Onnx.Decode.{each_chosen, raw_row, class_of, centred_box, nth, decode_raw}
use fireme_x.Detect.Onnx.Decode.Valid.{
  Yields, detect-Yields, each-Yields, unpadded-Ordered, floor-le-score,
}

-- what is asked of numpy: the indices are those of the row
pub record IsArgsort (np : Numpy) : Type 0 where
  pub indices : (scores : List ℤ) → All (λ k. k < length scores) (np.argsort scores)

All-of_mem {ℓ κ} :
    {A : Type ℓ} (P : A → Type κ) (xs : List A) → ((x : A) → Memᴰ x xs → P x) → All P xs
All-of_mem P [] f = tt
All-of_mem P (x ∷ xs) f = (f x (Memᴰ.head refl), All-of_mem P xs λ y m. f y (Memᴰ.tail m))

mem-All {ℓ κ} : {A : Type ℓ} (P : A → Type κ) (xs : List A) (x : A) → All P xs → Memᴰ x xs → P x
mem-All P [] x h m = elim m [ ]
mem-All P (y ∷ xs) x h (Memᴰ.head e) = subst P (sym e) h.0
mem-All P (y ∷ xs) x h (Memᴰ.tail m) = mem-All P xs x h.1 m

All-nth {κ} : (P : ℕ → Type κ) (xs : List ℕ) (k : ℕ) → All P xs → k < length xs → P (nth xs k)
All-nth P [] k h lt = absurd (omega arith)
All-nth P (x ∷ xs) zero h lt = h.0
All-nth P (x ∷ xs) (suc k) h lt = All-nth P xs k h.1 (omega arith)

pub below-All : (n : ℕ) → All (λ i. i < n) (below n)
below-All zero = tt
below-All (suc n) =
    All-append (λ i. i < suc n) (below n) (n ∷ [])
      (All-mono (λ i. i < n) (λ i. i < suc n) (below n) (λ i h. omega arith) (below-All n))
      (omega arith, tt)

length-map {ℓ κ} :
    {A : Type ℓ} {B : Type κ} (f : A → B) (xs : List A) → length (map f xs) ≡ length xs
length-map f [] = refl
length-map f (x ∷ xs) = omega (arith, length-map f xs)

-- sides of a row on the canvas that are not negative
abbrev pub Sized : Matrix → ℕ → Type 0
Sized m i = (pos 0 ≤ℤ m.cell i 2) × (pos 0 ≤ℤ m.cell i 3)

raw_row-Yields :
    (d : OnnxDetector) (m : Matrix) (t : Transform) (i : ℕ)
    → Sized m i
    → leb_ℤ (pos d.confidence_floor) (class_of d m i).1 ≡ true
    → Yields d.one d.confidence_floor (raw_row d m t i)
unfolding raw_row
raw_row-Yields d m t i sized reaches =
    detect-Yields d.one d.confidence_floor t (label_at d.names (pos (class_of d m i).0))
      (pos_part (class_of d m i).1) (centred_box d.one t m i)
      (floor-le-score d.confidence_floor (class_of d m i).1 reaches)
      (unpadded-Ordered d.one t _
        (half_mono (m.cell i 0) (m.cell i 2) sized.0, half_mono (m.cell i 1) (m.cell i 3) sized.1))

chosen-Yields :
    (one floor : ℕ) (round : ℕ → Option (List Detection)) (near : ℕ → ℕ → Bool) (order : List ℕ)
    (chosen : Option (List ℕ))
    → Suppresses near order chosen
    → All (λ k. Yields one floor (round k)) order
    → Yields one floor (each_chosen round chosen)
unfolding each_chosen
chosen-Yields one floor round near order none s h = s
chosen-Yields one floor round near order (some chosen) s h = each-Yields one floor round chosen (
    All-of_mem (λ k. Yields one floor (round k)) chosen
      λ k m. mem-All (λ j. Yields one floor (round j)) order k h (s.1 k m))

All-reverse_aux {κ} :
    (P : ℕ → Type κ) (xs acc : List ℕ) → All P xs → All P acc → All P (reverse_aux xs acc)
All-reverse_aux P [] acc h k = k
All-reverse_aux P (x ∷ xs) acc h k = All-reverse_aux P xs (x ∷ acc) h.1 (h.0, k)

-- the rows that reach the floor
abbrev kept_rows : OnnxDetector → Matrix → List ℕ
kept_rows d m = keep (λ i. leb_ℤ (pos d.confidence_floor) (class_of d m i).1) (below m.rows)

kept_rows-Yields :
    (d : OnnxDetector) (m : Matrix) (t : Transform)
    → ((i : ℕ) → i < m.rows → Sized m i)
    → All (λ i. Yields d.one d.confidence_floor (raw_row d m t i)) (kept_rows d m)
kept_rows-Yields d m t sized =
    let reaches : ℕ → Bool = λ i. leb_ℤ (pos d.confidence_floor) (class_of d m i).1 in
    let sides : All (Sized m) (kept_rows d m) =
      All-keep (Sized m) reaches (below m.rows)
        (All-mono (λ i. i < m.rows) (Sized m) (below m.rows) sized (below-All m.rows)) in
    All-of_mem (λ i. Yields d.one d.confidence_floor (raw_row d m t i)) (kept_rows d m)
      λ i mem.
        raw_row-Yields d m t i (mem-All (Sized m) (kept_rows d m) i sides mem)
          (mem-All (λ k. reaches k ≡ true) (kept_rows d m) i (keep-All reaches (below m.rows)) mem)

-- Where no row has a negative side, a raw output is decoded without an exception and the suppression
-- ends; each detection reaches the confidence floor, and its box lies in the frame and has a positive
-- area.
pub decode_raw-Yields :
    (np : Numpy) (d : OnnxDetector) (m : Matrix) (t : Transform)
    → IsArgsort np
    → ((i : ℕ) → i < m.rows → Sized m i)
    → Yields d.one d.confidence_floor (decode_raw np d m t)
unfolding decode_raw
decode_raw-Yields np d m t sorts sized =
    let kept : List ℕ = kept_rows d m in
    let scores : List ℤ = map (λ i. (class_of d m i).1) kept in
    let boxes : ℕ → FrameBox = λ k. centred_box d.one t m (nth kept k) in
    let round : ℕ → Option (List Detection) = λ k. raw_row d m t (nth kept k) in
    let yields : ℕ → Type 0 = λ k. Yields d.one d.confidence_floor (round k) in
    let rows : All yields (np.argsort scores) =
      All-mono (λ k. k < length scores) yields (np.argsort scores)
        (λ k inside.
          All-nth (λ i. Yields d.one d.confidence_floor (raw_row d m t i)) kept k
            (kept_rows-Yields d m t sized)
            (omega (arith, length-map (λ i. (class_of d m i).1) kept)))
        (sorts.indices scores) in
    elim (Bool-cases (is_empty kept)) [
      | inl nothing ↦ rw nothing tt
      | inr something ↦ rw something (
          chosen-Yields d.one d.confidence_floor round (apart_by boxes d.iou)
            (reverse (np.argsort scores)) (nms boxes (np.argsort scores) d.iou)
            (nms-Suppresses boxes (np.argsort scores) d.iou)
            (All-reverse_aux yields (np.argsort scores) [] rows tt))
    ]
