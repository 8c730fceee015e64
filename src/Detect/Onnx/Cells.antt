-- ===== src/Detect/Onnx/Cells.antt =====
-- firemex/detect/onnx_backend.py: the network's output as an array of cells, what its look says of its
-- layout, and the way from a row's box to a detection. A cell is a whole number of a unit, 1.0 being
-- `one` of them; quotients are rounded down to the unit. An exception is `none`.
use fireme_x.Base.{
  ℕ, zero, suc, ◌*◌, min, Bool, true, false, not, ◌&&◌, ◌||◌, Option, none, some, List, [], ◌∷◌,
  ◌++◌, map, ◌==◌, length, if◌then◌else◌,
}
use fireme_x.Base.Dict.{Dict, lookup}
use fireme_x.Base.Int.{ℤ, pos, negsuc, pos_part, ◌-ℤ◌, scale_by, div_by, ltb_ℤ, leb_ℤ, min_ℤ, max_ℤ}
use fireme_x.Base.Ratio.{Ratio, round_div}
use fireme_x.Accounts.Text.{Text}
use fireme_x.Detect.Geometry.{BBox, new_box, area}
use fireme_x.Detect.Frames.{Label, Detection}
use fireme_x.Detect.Labels.{canonical_label}
use fireme_x.Detect.Onnx.Suppression.{FrameBox}

-- an array of two dimensions: its shape, its cells, and which of them are finite numbers. Only a class id
-- is asked that; scores and coordinates that are no finite numbers are beyond this model.
pub record Matrix : Type 0 where
  pub rows : ℕ
  pub columns : ℕ
  pub is_finite : ℕ → ℕ → Bool
  pub cell : ℕ → ℕ → ℤ

-- the output for one image, of two dimensions or not
pub data Output : Type 0 where
  matrix : Matrix → Output
  misshapen : Output

-- the fields of the detector that decoding reads
pub record OnnxDetector : Type 0 where
  pub one : ℕ
  pub names : Dict Text
  pub confidence_floor : ℕ
  pub iou : Ratio
  pub end2end : Option Bool

-- numpy: `np.isclose`, and `argsort` of a row of scores
pub record Numpy : Type 0 where
  pub is_close : ℤ → ℤ → Bool
  pub argsort : List ℤ → List ℕ

-- what `letterbox` returned for the image, and the image's shape
pub record Transform : Type 0 where
  pub scale : Ratio
  pub pad_x : ℕ
  pub pad_y : ℕ
  pub height : ℕ
  pub width : ℕ

-- the indices below n, in order
abbrev pub below : ℕ → List ℕ
below zero = []
below (suc n) = below n ++ n ∷ []

abbrev pub column : Matrix → ℕ → List ℤ
column m j = map (λ i. m.cell i j) (below m.rows)

-- `a.min()` and `a.max()`, of an array that is not empty
abbrev pub smallest : ℤ → List ℤ → ℤ
smallest x [] = x
smallest x (y ∷ ys) = smallest (min_ℤ x y) ys

abbrev pub largest : ℤ → List ℤ → ℤ
largest x [] = x
largest x (y ∷ ys) = largest (max_ℤ x y) ys

-- `round` of a cell, to a whole number of ones
unfoldable pub round_cell : ℕ → ℤ → ℤ
round_cell one (pos n) = pos (round_div n one)
round_cell one (negsuc n) = pos 0 -ℤ pos (round_div (suc n) one)

abbrev pub all : (ℤ → Bool) → List ℤ → Bool
all p [] = true
all p (x ∷ xs) = let rest = all p xs in p x && rest

-- `min` and `max` of an empty array raise ValueError
unfoldable pub ranges : ℕ → ℕ → Bool → List ℤ → List ℤ → Option Bool
ranges one kinds integral (c ∷ classes) (s ∷ scores) =
    let in_range =
      leb_ℤ (pos 0) (smallest c classes) && ltb_ℤ (largest c classes) (pos (kinds * one)) in
    let scored = leb_ℤ (pos 0) (smallest s scores) && leb_ℤ (largest s scores) (pos one) in
    some (integral && in_range && scored)
ranges one kinds integral _ _ = none

-- `max(len(self._names), 1)`
abbrev pub kinds_of : ℕ → ℕ
kinds_of zero = 1
kinds_of (suc n) = suc n

-- `_looks_end2end`
unfoldable pub looks_end2end : Numpy → OnnxDetector → Matrix → Option Bool
unfolding ranges
looks_end2end np d m =
    if not (m.columns == 6)
    then some false
    else (let classes = column m 5 in
        ranges d.one (kinds_of (length d.names))
          (all (λ c. np.is_close c (scale_by (round_cell d.one c) d.one)) classes) classes
          (column m 4))

-- `self._label_map.get(k)`
unfoldable pub label_at : Dict Text → ℤ → Option Label
label_at names (negsuc n) = none
label_at names (pos k) = elim (lookup k names) [ none ↦ none | some name ↦ canonical_label name ]

-- `BBox(...)` in frame coordinates of either sign: `none` is the ValueError of a degenerate box
unfoldable pub checked : FrameBox → Option FrameBox
checked b = if ltb_ℤ b.x2 b.x1 || ltb_ℤ b.y2 b.y1 then none else some b

-- `min(max(x, 0.0), 1.0)`
abbrev pub clip : ℕ → ℤ → ℕ
clip one x = min (pos_part x) one

-- `box.clipped()`
unfoldable pub clipped : ℕ → FrameBox → Option BBox
unfolding new_box
clipped one b = new_box (clip one b.x1) (clip one b.y1) (clip one b.x2) (clip one b.y2)

-- (q - pad) / scale: from the canvas to the original frame. The scale, and the sides below, are those of
-- an image with pixels, and positive.
unfoldable pub unpad : ℕ → ℕ → Ratio → ℤ → ℤ
unpad one pad scale q = div_by (scale_by (q -ℤ pos (pad * one)) scale.den) scale.num

unfoldable pub clip_checked : ℕ → Option FrameBox → Option BBox
unfolding clipped
clip_checked one none = none
clip_checked one (some b) = clipped one b

-- `BBox(x1 / width, y1 / height, x2 / width, y2 / height).clipped()`
unfoldable pub normalised : ℕ → Transform → FrameBox → Option BBox
unfolding checked clip_checked
normalised one t b = clip_checked one (
    checked (record {
      x1 = div_by b.x1 t.width;
      y1 = div_by b.y1 t.height;
      x2 = div_by b.x2 t.width;
      y2 = div_by b.y2 t.height;
    }))

-- no detection for an empty box
unfoldable pub if_visible : Label → ℕ → BBox → List Detection
if_visible label confidence box =
    if area box == 0 then [] else record { label = label; confidence = confidence; box = box } ∷ []

-- one round of either loop, from the label on: the detections that it appends
unfoldable pub detect : ℕ → Transform → Option Label → ℕ → FrameBox → Option (List Detection)
unfolding normalised if_visible
detect one t none confidence b = some []
detect one t (some label) confidence b = elim (normalised one t b) [
  | none ↦ none
  | some box ↦ some (if_visible label confidence box)
]

-- a loop whose rounds append to `out`
unfoldable pub each : (ℕ → Option (List Detection)) → List ℕ → Option (List Detection)
each round [] = some []
each round (i ∷ is) =
    let rest = each round is in
    elim (round i) [
      | none ↦ none
      | some found ↦ elim rest [ none ↦ none | some more ↦ some (found ++ more) ]
    ]
