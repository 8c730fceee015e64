-- ===== src/Detect/Geometry/Laws.antt =====
-- Laws of boxes (firemex/detect/base.py): the union is the least box around both, and the overlap
-- ratio is a symmetric fraction between 0 and 1.
use fireme_x.Base.{ℕ, ◌*◌, ◌≤◌, ◌≡◌, some, arith}
use fireme_x.Detect.Geometry.{BBox, IsBox, new_box, area, union, iou, shared_width, shared_height}
use native.Mathlib.Nat.{mul-le-mul}

-- b lies inside a
pub record Covers (a b : BBox) : Type 0 where
  pub left : a.x1 ≤ b.x1
  pub top : a.y1 ≤ b.y1
  pub right : b.x2 ≤ a.x2
  pub bottom : b.y2 ≤ a.y2

pub new_box-IsBox : (x1 y1 x2 y2 : ℕ) {b : BBox} → new_box x1 y1 x2 y2 ≡ some b → IsBox b
unfolding new_box
new_box-IsBox x1 y1 x2 y2 h = ground arith

-- The union of two boxes is a box that covers both, and any box that covers both covers it.
pub union_least :
    (a b : BBox)
    → IsBox a
    → IsBox b
    → IsBox (union a b)
      × Covers (union a b) a
      × Covers (union a b) b
      × ((c : BBox) → Covers c a → Covers c b → Covers c (union a b))
unfolding union
union_least a b ha hb = (ground arith, ground arith, ground arith, λ c p q. ground arith)

pub iou_comm : (a b : BBox) → iou a b ≡ iou b a
unfolding iou
iou_comm a b = ground arith

-- the intersection of two boxes is no larger than either
shared-le-area : (a b : BBox) → shared_width a b * shared_height a b ≤ area a
shared-le-area a b = mul-le-mul (omega arith) (omega arith)

pub iou-le_one : (a b : BBox) → (iou a b).num ≤ (iou a b).den
unfolding iou
iou-le_one a b = ground (arith, shared-le-area a b, shared-le-area b a)
