-- ===== src/Detect/Onnx/Decode.antt =====
-- firemex/detect/onnx_backend.py: `OnnxDetector._decode` and what it calls, from the network's output to
-- detections. An exception is `none`.
use fireme_x.Base.{
  ◌-◌, ℕ, zero, suc, ◌+◌, ◌*◌, min, Bool, true, false, not, ◌&&◌, ◌||◌, Option, none, some, List,
  [], ◌∷◌, ◌++◌, map, ltb, leb, ◌==◌, length, keep, get_elem?, is_empty, if◌then◌else◌,
}
use fireme_x.Base.Dict.{Dict, lookup}
use fireme_x.Base.Int.{
  ℤ, pos, negsuc, pos_part, ◌+ℤ◌, ◌-ℤ◌, scale_by, div_by, ltb_ℤ, leb_ℤ, min_ℤ, max_ℤ,
}
use fireme_x.Base.Ratio.{Ratio, round_div}
use fireme_x.Accounts.Text.{Text}
use fireme_x.Detect.Geometry.{BBox, new_box, area}
use fireme_x.Detect.Frames.{Label, Detection}
use fireme_x.Detect.Labels.{canonical_label}
use fireme_x.Detect.Onnx.Suppression.{FrameBox, nms}
use fireme_x.Detect.Onnx.Cells.{
  Matrix, Output, OnnxDetector, Numpy, Transform, below, column, smallest, largest, round_cell, all,
  ranges, kinds_of, looks_end2end, label_at, checked, clip, clipped, unpad, clip_checked,
  normalised, if_visible, detect, each,
}
pub mod Valid
pub mod Raw

abbrev row_score : Matrix → ℕ → ℤ
row_score m i = m.cell i 4

-- the box of a row in the original frame, from its corners on the canvas
abbrev pub unpadded : ℕ → Transform → FrameBox → FrameBox
unpadded one t b = record {
  x1 = unpad one t.pad_x t.scale b.x1;
  y1 = unpad one t.pad_y t.scale b.y1;
  x2 = unpad one t.pad_x t.scale b.x2;
  y2 = unpad one t.pad_y t.scale b.y2;
}

abbrev pub corners : Matrix → ℕ → FrameBox
corners m i = record { x1 = m.cell i 0; y1 = m.cell i 1; x2 = m.cell i 2; y2 = m.cell i 3 }

-- a known label's box: skipped where a side is not positive
detect_sized : ℕ → Transform → Label → ℕ → FrameBox → Option (List Detection)
unfolding detect
detect_sized one t label confidence b =
    if leb_ℤ b.x2 b.x1 || leb_ℤ b.y2 b.y1 then some [] else detect one t (some label) confidence b

detect_labelled : ℕ → Transform → Option Label → ℕ → FrameBox → Option (List Detection)
unfolding detect_sized
detect_labelled one t none confidence b = some []
detect_labelled one t (some label) confidence b = detect_sized one t label confidence b

-- one round of the loop of `_decode_end2end`; `row[5]` raises IndexError on a short row, and `int` of what
-- is no finite number ValueError or OverflowError
end2end_row : OnnxDetector → Matrix → Transform → ℕ → Option (List Detection)
unfolding label_at detect_labelled
end2end_row d m t i =
    if ltb m.columns 6
    then none
    else if not (m.is_finite i 5)
    then none
    else detect_labelled d.one t (label_at d.names (round_cell d.one (m.cell i 5)))
        (pos_part (row_score m i)) (unpadded d.one t (corners m i))

-- `_decode_end2end`; `predictions[:, 4]` raises IndexError on short rows
unfoldable pub decode_end2end : OnnxDetector → Matrix → Transform → Option (List Detection)
unfolding end2end_row
decode_end2end d m t =
    let kept = keep (λ i. leb_ℤ (pos d.confidence_floor) (row_score m i)) (below m.rows) in
    if ltb m.columns 5
    then none
    else if is_empty kept
    then some []
    else each (end2end_row d m t) kept

-- `argmax` and `max` of the scores of the classes 0 to n: the first of the largest
abbrev pub best_of : (ℕ → ℤ) → ℕ → ℕ × ℤ
best_of f zero = (0, f 0)
best_of f (suc n) =
    let best = best_of f n in if ltb_ℤ best.1 (f (suc n)) then (suc n, f (suc n)) else best

abbrev pub class_of : OnnxDetector → Matrix → ℕ → ℕ × ℤ
class_of d m i = best_of (λ k. m.cell i (4 + k)) (length d.names - 1)

-- a row cx, cy, w, h on the canvas as a box in the original frame
abbrev pub centred_box : ℕ → Transform → Matrix → ℕ → FrameBox
centred_box one t m i =
    let half_w = div_by (m.cell i 2) 2 in
    let half_h = div_by (m.cell i 3) 2 in
    unpadded one t (record {
      x1 = m.cell i 0 -ℤ half_w;
      y1 = m.cell i 1 -ℤ half_h;
      x2 = m.cell i 0 +ℤ half_w;
      y2 = m.cell i 1 +ℤ half_h;
    })

-- `a[k]`, at an index inside the array
abbrev pub nth : List ℕ → ℕ → ℕ
nth [] k = 0
nth (x ∷ xs) zero = x
nth (x ∷ xs) (suc k) = nth xs k

-- one round of the loop over the boxes that `nms` chose
raw_row : OnnxDetector → Matrix → Transform → ℕ → Option (List Detection)
unfolding label_at detect
raw_row d m t i =
    let (k, score) = class_of d m i in
    detect d.one t (label_at d.names (pos k)) (pos_part score) (centred_box d.one t m i)

-- the loop over what `nms` chose; it always ends with a choice
each_chosen : (ℕ → Option (List Detection)) → Option (List ℕ) → Option (List Detection)
unfolding each
each_chosen round none = none
each_chosen round (some chosen) = each round chosen

-- what `_decode` does with rows of boxes and class scores
unfoldable pub decode_raw : Numpy → OnnxDetector → Matrix → Transform → Option (List Detection)
unfolding raw_row each_chosen
decode_raw np d m t =
    let kept = keep (λ i. leb_ℤ (pos d.confidence_floor) (class_of d m i).1) (below m.rows) in
    if is_empty kept
    then some []
    else each_chosen (λ k. raw_row d m t (nth kept k))
        (nms (λ k. centred_box d.one t m (nth kept k))
          (np.argsort (map (λ i. (class_of d m i).1) kept)) d.iou)

abbrev transpose : Matrix → Matrix
transpose m = record {
  rows = m.columns;
  columns = m.rows;
  is_finite = λ i j. m.is_finite j i;
  cell = λ i j. m.cell j i;
}

-- `_decode` of a raw output, brought to one row for each box; a wrong shape gives nothing
decode_oriented : Numpy → OnnxDetector → Matrix → Transform → Option (List Detection)
unfolding decode_raw
decode_oriented np d m t =
    let wide = 4 + length d.names in
    let turned = if m.rows == wide then transpose m else m in
    if ltb turned.columns wide then some [] else decode_raw np d turned t

by_layout : Bool → Numpy → OnnxDetector → Matrix → Transform → Option (List Detection)
unfolding decode_end2end decode_oriented
by_layout end2end np d m t = if end2end then decode_end2end d m t else decode_oriented np d m t

-- the metadata's word, or else the look of the output
layout_of : Option Bool → Numpy → OnnxDetector → Matrix → Option Bool
unfolding looks_end2end
layout_of (some end2end) np d m = some end2end
layout_of none np d m = looks_end2end np d m

-- `_decode`
unfoldable pub decode : Numpy → OnnxDetector → Output → Transform → Option (List Detection)
unfolding layout_of by_layout
decode np d Output.misshapen t = some []
decode np d (Output.matrix m) t = elim (layout_of d.end2end np d m) [
  | none ↦ none
  | some end2end ↦ by_layout end2end np d m t
]
