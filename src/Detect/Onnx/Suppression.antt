-- ===== src/Detect/Onnx/Suppression.antt =====
-- firemex/detect/onnx_backend.py: `nms`, greedy non-maximum suppression. Coordinates are whole numbers
-- of one unit, of either sign; the arithmetic is exact. An array is the function of its rows.
use fireme_x.Base.{
  ℕ, zero, suc, ◌*◌, ◌≤◌, Bool, true, not, Option, none, some, List, [], ◌∷◌, ◌++◌, leb, length,
  keep, if◌then◌else◌,
}
use fireme_x.Base.Int.{ℤ, pos, pos_part, ◌+ℤ◌, ◌-ℤ◌, ◌*ℤ◌, min_ℤ, max_ℤ, ltb_ℤ}
use fireme_x.Base.Ratio.{Ratio}
use mathlib.Core.List.{reverse}
pub mod Greedy

-- a row x1, y1, x2, y2 of `boxes`
pub record FrameBox : Type 0 where
  pub x1 : ℤ
  pub y1 : ℤ
  pub x2 : ℤ
  pub y2 : ℤ

abbrev pub signed_area : FrameBox → ℤ
signed_area b = (b.x2 -ℤ b.x1) *ℤ (b.y2 -ℤ b.y1)

-- `np.clip(x, 0, None)`
abbrev pub clip_below : ℤ → ℕ
clip_below x = pos_part x

abbrev pub overlap : FrameBox → FrameBox → ℕ
overlap a b =
    clip_below (min_ℤ a.x2 b.x2 -ℤ max_ℤ a.x1 b.x1)
    * clip_below (min_ℤ a.y2 b.y2 -ℤ max_ℤ a.y1 b.y1)

-- `np.where(union > 0, overlap / union, 0.0) <= threshold`
abbrev pub ratio_within : Ratio → ℕ → ℤ → Bool
ratio_within t shared union =
    if ltb_ℤ (pos 0) union then leb (shared * t.den) (t.num * pos_part union) else true

unfoldable pub iou_within : Ratio → FrameBox → FrameBox → Bool
iou_within t a b =
    let shared = overlap a b in ratio_within t shared (signed_area a +ℤ signed_area b -ℤ pos shared)

-- The loop of `nms`: `order`, the indices that are left, best first, and `kept`, those chosen. The
-- fuel counts the rounds; `none` means that it ran out.
unfoldable pub nms_loop : (ℕ → ℕ → Bool) → ℕ → List ℕ → List ℕ → Option (List ℕ)
nms_loop within zero order kept = none
nms_loop within (suc fuel) [] kept = some kept
nms_loop within (suc fuel) (best ∷ []) kept = some (kept ++ best ∷ [])
nms_loop within (suc fuel) (best ∷ next ∷ rest) kept =
    nms_loop within fuel (keep (within best) (next ∷ rest)) (kept ++ best ∷ [])

-- `nms`, with what numpy's `scores.argsort()` returned
unfoldable pub nms : (ℕ → FrameBox) → List ℕ → Ratio → Option (List ℕ)
nms boxes ascending t =
    let order = reverse ascending in
    nms_loop (λ best other. iou_within t (boxes best) (boxes other)) (suc (length order)) order []
