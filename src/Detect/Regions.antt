-- ===== src/Detect/Regions.antt =====
-- firemex/detect/stub.py: `_grid_regions`, which groups the cells of a mask that touch into regions.
-- A mask is a function on rows and columns; the fill of a region is a fraction.
use fireme_x.Base.{
  ℕ, zero, suc, ◌+◌, ◌-◌, ◌*◌, min, max, Bool, true, false, not, ◌&&◌, ◌||◌, Option, none, some,
  List, [], ◌∷◌, ◌++◌, map, any, length, ltb, leb, ◌==◌, if◌then◌else◌,
}
use fireme_x.Base.Options.{◌>>=◌}
use fireme_x.Base.Ratio.{Ratio}
pub mod Cells
pub mod Flood
pub mod Component
pub mod Found

-- (row, column)
abbrev pub Cell : Type 0
Cell = ℕ × ℕ

abbrev pub same : Cell → Cell → Bool
same a b = (a.0 == b.0) && (a.1 == b.1)

abbrev pub contains : Cell → List Cell → Bool
contains a cells = any (same a) cells

-- `range(rows)` and, in each row, `range(cols)`
abbrev pub row_from : ℕ → ℕ → ℕ → List Cell
row_from r c zero = []
row_from r c (suc n) = (r, c) ∷ row_from r (suc c) n

abbrev pub grid_from : ℕ → ℕ → ℕ → List Cell
grid_from r zero cols = []
grid_from r (suc n) cols = row_from r 0 cols ++ grid_from (suc r) n cols

abbrev pub grid : ℕ → ℕ → List Cell
grid rows cols = grid_from 0 rows cols

-- the cells above, below, left and right; there is none at a negative index
abbrev pub above : Cell → List Cell
above (zero, c) = []
above (suc r, c) = (r, c) ∷ []

abbrev pub left_of : Cell → List Cell
left_of (r, zero) = []
left_of (r, suc c) = (r, c) ∷ []

abbrev pub neighbours : Cell → List Cell
neighbours a = above a ++ (suc a.0, a.1) ∷ left_of a ++ (a.0, suc a.1) ∷ []

-- (row0, col0, row1, col1, fill)
pub record Region : Type 0 where
  pub row0 : ℕ
  pub col0 : ℕ
  pub row1 : ℕ
  pub col1 : ℕ
  pub fill : Ratio

-- `min` and `max` of what is not empty
abbrev pub lowest : ℕ → List ℕ → ℕ
lowest x [] = x
lowest x (y ∷ l) = min x (lowest y l)

abbrev pub highest : ℕ → List ℕ → ℕ
highest x [] = x
highest x (y ∷ l) = max x (highest y l)

abbrev pub row_of : Cell → ℕ
row_of a = a.0

abbrev pub col_of : Cell → ℕ
col_of a = a.1

abbrev pub region_of : Cell → List Cell → Region
region_of a cells =
    let row0 = lowest a.0 (map row_of cells) in
    let row1 = suc (highest a.0 (map row_of cells)) in
    let col0 = lowest a.1 (map col_of cells) in
    let col1 = suc (highest a.1 (map col_of cells)) in
    record {
      row0 = row0;
      col0 = col0;
      row1 = row1;
      col1 = col1;
      fill = record { num = suc (length cells); den = max ((row1 - row0) * (col1 - col0)) 1 };
    }

-- the region of cells that are enough
pub region_if : ℕ → List Cell → List Region
region_if min_cells [] = []
region_if min_cells (a ∷ cells) =
    if ltb (suc (length cells)) min_cells then [] else region_of a cells ∷ []

abbrev pub region_area : Region → ℕ
region_area g = (g.row1 - g.row0) * (g.col1 - g.col0)

-- the sort by falling area, which keeps the order of equals
pub insert_region : Region → List Region → List Region
insert_region g [] = g ∷ []
insert_region g (h ∷ rest) =
    let later = insert_region g rest in
    if leb (region_area h) (region_area g) then g ∷ h ∷ rest else h ∷ later

pub sort_regions : List Region → List Region
unfolding insert_region
sort_regions [] = []
sort_regions (g ∷ rest) = insert_region g (sort_regions rest)

module _ (mask : ℕ → ℕ → Bool) (rows cols : ℕ) where
  -- a cell of the grid, in the mask, and not seen before
  abbrev pub is_free : Cell → List Cell → Bool
  is_free a seen = ltb a.0 rows && ltb a.1 cols && mask a.0 a.1 && not (contains a seen)

  -- one neighbour, on the queue and the cells seen
  pub reach_one : Cell → List Cell × List Cell → List Cell × List Cell
  reach_one n w = if is_free n w.1 then (w.0 ++ n ∷ [], n ∷ w.1) else w

  -- the loop over the neighbours
  pub reach : List Cell → List Cell × List Cell → List Cell × List Cell
  unfolding reach_one
  reach [] w = w
  reach (n ∷ ns) w = reach ns (reach_one n w)

  -- the `while queue` loop: its cells and all that are seen; `none` is the end of the fuel
  pub flood : ℕ → List Cell × List Cell → List Cell → Option (List Cell × List Cell)
  unfolding reach
  flood fuel ([], seen) cells = some (cells, seen)
  flood zero (a ∷ queue, seen) cells = none
  flood (suc fuel) (a ∷ queue, seen) cells =
      flood fuel (reach (neighbours a) (queue, seen)) (cells ++ a ∷ [])

  -- the body of the two `for` loops at one cell: the region found there and the cells seen
  pub visit : ℕ → List Cell → Cell → Option (List Region × List Cell)
  unfolding flood region_if
  visit min_cells seen a = if not (mask a.0 a.1) || contains a seen then some ([], seen) else (do
    (cells, later) ← flood (suc (rows * cols)) (a ∷ [], a ∷ seen) []
    some (region_if min_cells cells, later))

  pub visit_all : ℕ → List Cell → List Cell → Option (List Region)
  unfolding visit
  visit_all min_cells seen [] = some []
  visit_all min_cells seen (a ∷ cells) = do
    (found, later) ← visit min_cells seen a
    regions ← visit_all min_cells later cells
    some (found ++ regions)

  -- `_grid_regions`
  unfoldable pub grid_regions : ℕ → Option (List Region)
  unfolding visit_all sort_regions
  grid_regions min_cells = do
    regions ← visit_all min_cells [] (grid rows cols)
    some (sort_regions regions)
