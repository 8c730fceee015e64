-- ===== src/Incident/Area.antt =====
-- firemex/incident/engine.py: the area of a union of boxes, by a grid of all their corners, and the
-- largest group of boxes that overlap one common box. A cell's centre is compared doubled.
use fireme_x.Base.{
  ℕ, zero, suc, ◌+◌, ◌-◌, ◌*◌, max, Bool, true, false, ◌&&◌, Option, none, some, List, [], ◌∷◌,
  ◌++◌, ltb, leb, ◌==◌, if◌then◌else◌, keep, any, count_if,
}
use fireme_x.Base.Ratio.{Ratio, ge_ratio}
use fireme_x.Detect.Geometry.{BBox, area, iou}
pub mod Laws

-- `sorted({...})`, one value at a time
unfoldable pub insert_sorted : ℕ → List ℕ → List ℕ
insert_sorted k [] = k ∷ []
insert_sorted k (j ∷ js) =
    let rest = insert_sorted k js in
    if ltb k j then k ∷ j ∷ js else if j == k then j ∷ js else j ∷ rest

unfoldable pub sorted_set : List ℕ → List ℕ
unfolding insert_sorted
sorted_set [] = []
sorted_set (k ∷ ks) = insert_sorted k (sorted_set ks)

-- `{b.x1 for b in boxes} | {b.x2 for b in boxes}`, before it is sorted
abbrev x_sides : List BBox → List ℕ
x_sides [] = []
x_sides (b ∷ bs) = b.x1 ∷ b.x2 ∷ x_sides bs

abbrev y_sides : List BBox → List ℕ
y_sides [] = []
y_sides (b ∷ bs) = b.y1 ∷ b.y2 ∷ y_sides bs

-- does some box hold the centre of the cell?
abbrev pub cell_covered : List BBox → ℕ → ℕ → ℕ → ℕ → Bool
cell_covered boxes x x' y y' =
    any
      (λ b.
        leb (2 * b.x1) (x + x')
        && leb (x + x') (2 * b.x2)
        && leb (2 * b.y1) (y + y')
        && leb (y + y') (2 * b.y2))
      boxes

-- the inner loop, over the rows of one column
unfoldable pub column_area : List BBox → ℕ → ℕ → List ℕ → ℕ
column_area boxes x x' [] = 0
column_area boxes x x' (y ∷ []) = 0
column_area boxes x x' (y ∷ y' ∷ ys) =
    (if cell_covered boxes x x' y y' then (x' - x) * (y' - y) else 0)
    + column_area boxes x x' (y' ∷ ys)

unfoldable pub grid_area : List BBox → List ℕ → List ℕ → ℕ
unfolding column_area
grid_area boxes [] ys = 0
grid_area boxes (x ∷ []) ys = 0
grid_area boxes (x ∷ x' ∷ xs) ys = column_area boxes x x' ys + grid_area boxes (x' ∷ xs) ys

area_of_solid : List BBox → ℕ
unfolding grid_area sorted_set
area_of_solid [] = 0
area_of_solid (b ∷ []) = area b
area_of_solid (b ∷ c ∷ bs) =
    let boxes = b ∷ c ∷ bs in
    grid_area boxes (sorted_set (x_sides boxes)) (sorted_set (y_sides boxes))

-- `_union_area`
unfoldable pub union_area : List BBox → ℕ
unfolding area_of_solid
union_area boxes = area_of_solid (keep (λ b. ltb 0 (area b)) boxes)

-- `sum(1 for other in boxes if iou(seed, other) >= threshold)`
abbrev pub cluster_at : Ratio → List BBox → BBox → ℕ
cluster_at threshold boxes seed = count_if (λ other. ge_ratio (iou seed other) threshold) boxes

-- the largest cluster over the given seeds; 0 without seeds
unfoldable pub best_cluster : Ratio → List BBox → List BBox → ℕ
best_cluster threshold boxes [] = 0
best_cluster threshold boxes (seed ∷ seeds) =
    max (cluster_at threshold boxes seed) (best_cluster threshold boxes seeds)

unfoldable pub largest_stable_cluster : List BBox → Ratio → ℕ
unfolding best_cluster
largest_stable_cluster boxes threshold = best_cluster threshold boxes boxes
