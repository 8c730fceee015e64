-- ===== src/Detect/Geometry.antt =====
-- firemex/detect/base.py: boxes and their overlap. Normalised coordinates are whole numbers of one
-- fixed unit (every backend clips its boxes to the frame, so none is negative), areas are in square
-- units, and arithmetic is exact.
use fireme_x.Base.{
  ℕ, suc, ◌+◌, ◌-◌, ◌*◌, ◌≤◌, ◌<◌, min, max, ◌≡◌, refl, Bool, true, false, ◌||◌, Option, none, some,
  arith, ltb, leb, if◌then◌else◌,
}
use fireme_x.Base.Ratio.{Ratio}
pub mod Laws

pub record BBox : Type 0 where
  pub x1 : ℕ
  pub y1 : ℕ
  pub x2 : ℕ
  pub y2 : ℕ

-- `BBox(...)` with `__post_init__`: `none` is the ValueError of a degenerate box
unfoldable pub new_box : ℕ → ℕ → ℕ → ℕ → Option BBox
new_box x1 y1 x2 y2 =
    if ltb x2 x1 || ltb y2 y1 then none else some (record { x1 = x1; y1 = y1; x2 = x2; y2 = y2 })

-- what `__post_init__` leaves
pub record IsBox (b : BBox) : Type 0 where
  pub wide : b.x1 ≤ b.x2
  pub tall : b.y1 ≤ b.y2

abbrev pub width : BBox → ℕ
width b = b.x2 - b.x1

abbrev pub height : BBox → ℕ
height b = b.y2 - b.y1

abbrev pub area : BBox → ℕ
area b = width b * height b

unfoldable pub union : BBox → BBox → BBox
union a b = record {
  x1 = min a.x1 b.x1;
  y1 = min a.y1 b.y1;
  x2 = max a.x2 b.x2;
  y2 = max a.y2 b.y2;
}

-- the last step of `iou`, `intersection / denominator if denominator > 0 else 0.0`; the denominator
-- is exact, since the intersection lies in each box
abbrev pub overlap_ratio : ℕ → ℕ → Ratio
overlap_ratio shared total =
    if ltb 0 total then record { num = shared; den = total } else record { num = 0; den = 1 }

abbrev pub shared_width : BBox → BBox → ℕ
shared_width a b = min a.x2 b.x2 - max a.x1 b.x1

abbrev pub shared_height : BBox → BBox → ℕ
shared_height a b = min a.y2 b.y2 - max a.y1 b.y1

unfoldable pub iou : BBox → BBox → Ratio
iou a b =
    if leb (min a.x2 b.x2) (max a.x1 b.x1) || leb (min a.y2 b.y2) (max a.y1 b.y1)
    then record { num = 0; den = 1 }
    else (let intersection = shared_width a b * shared_height a b in
        overlap_ratio intersection (area a + area b - intersection))
