-- ===== src/Detect/Regions/Found.antt =====
-- firemex/detect/stub.py, `_grid_regions`: the regions that it returns.
use fireme_x.Base.{
  ℕ, zero, suc, ◌+◌, ◌≤◌, ◌<◌, ◌≡◌, refl, Bool, not, ◌||◌, Option, some, List, [], ◌∷◌, ◌++◌, map,
  length, ltb, leb, arith, Bool-cases, inl, inr, All, All-append, All-mono,
}
use fireme_x.Detect.Regions.{
  Cell, row_of, col_of, contains, row_from, grid_from, grid, Region, lowest, highest, region_if,
  region_area, insert_region, sort_regions, visit, visit_all, grid_regions,
}
use fireme_x.Detect.Regions.Flood.{IsMasked, flood_enough}

-- a region of enough cells, which lies in the grid and is not empty
pub record InGrid (min_cells rows cols : ℕ) (g : Region) : Type 0 where
  pub rows_in : g.row0 < g.row1 × g.row1 ≤ rows
  pub cols_in : g.col0 < g.col1 × g.col1 ≤ cols
  pub enough : min_cells ≤ g.fill.num

-- sorted by falling area
abbrev pub Falling : List Region → Type 0
Falling [] = Unit
Falling (g ∷ rest) = All (λ h. region_area h ≤ region_area g) rest × Falling rest

lowest-le : (x : ℕ) (l : List ℕ) → lowest x l ≤ x
lowest-le x [] = omega arith
lowest-le x (y ∷ l) = ground (arith, lowest-le y l)

highest-le : (x : ℕ) (l : List ℕ) → x ≤ highest x l
highest-le x [] = omega arith
highest-le x (y ∷ l) = ground (arith, highest-le y l)

highest-All : (n x : ℕ) (l : List ℕ) → x < n → All (λ y. y < n) l → highest x l < n
highest-All n x [] h k = h
highest-All n x (y ∷ l) h k = ground (arith, highest-All n y l k.0 k.1)

All-map : (f : Cell → ℕ) (n : ℕ) (l : List Cell) → All (λ a. f a < n) l → All (λ y. y < n) (map f l)
All-map f n [] h = tt
All-map f n (a ∷ l) h = (h.0, All-map f n l h.1)

insert_region-All :
    (P : Region → Type 0) (g : Region) (gs : List Region)
    → P g
    → All P gs
    → All P (insert_region g gs)
unfolding insert_region
insert_region-All P g [] h k = (h, tt)
insert_region-All P g (x ∷ gs) h k = elim (Bool-cases (leb (region_area x) (region_area g))) [
  | inl first ↦ rw first (h, k)
  | inr later ↦ rw later (k.0, insert_region-All P g gs h k.1)
]

insert_region-Falling : (g : Region) (gs : List Region) → Falling gs → Falling (insert_region g gs)
unfolding insert_region
insert_region-Falling g [] k = (tt, tt)
insert_region-Falling g (x ∷ gs) k = elim (Bool-cases (leb (region_area x) (region_area g))) [
  | inl first ↦ rw first (
      (
        (
          ground arith,
          All-mono (λ h. region_area h ≤ region_area x) (λ h. region_area h ≤ region_area g) gs
              (λ h le. ground arith) k.0,
        ),
        k,
      ))
  | inr later ↦ rw later (
      (
        insert_region-All (λ h. region_area h ≤ region_area x) g gs (ground arith) k.0,
        insert_region-Falling g gs k.1,
      ))
]

sort_regions-Falling : (gs : List Region) → Falling (sort_regions gs)
unfolding sort_regions
sort_regions-Falling [] = tt
sort_regions-Falling (g ∷ gs) = insert_region-Falling g (sort_regions gs) (sort_regions-Falling gs)

sort_regions-All : (P : Region → Type 0) (gs : List Region) → All P gs → All P (sort_regions gs)
unfolding sort_regions
sort_regions-All P [] h = tt
sort_regions-All P (g ∷ gs) h =
    insert_region-All P g (sort_regions gs) h.0 (sort_regions-All P gs h.1)

-- the cells of the two `for` loops
abbrev IsCell : ℕ → ℕ → Cell → Type 0
IsCell rows cols a = (a.0 < rows) × (a.1 < cols)

module _ (mask : ℕ → ℕ → Bool) (rows cols : ℕ) where
  side-Bounded :
      (f : Cell → ℕ) (n : ℕ) (a : Cell) (cells : List Cell)
      → ((x : Cell) → IsMasked mask rows cols x → f x < n)
      → All (IsMasked mask rows cols) (a ∷ cells)
      → (lowest (f a) (map f cells) < suc (highest (f a) (map f cells)))
        × (suc (highest (f a) (map f cells)) ≤ n)
  side-Bounded f n a cells inside h =
      let low = lowest-le (f a) (map f cells) in
      let high = highest-le (f a) (map f cells) in
      let top =
        highest-All n (f a) (map f cells) (inside a h.0) (
          All-map f n cells (All-mono (IsMasked mask rows cols) (λ x. f x < n) cells inside h.1)) in
      (omega arith, omega arith)

  region_if-InGrid :
      (min_cells : ℕ) (cells : List Cell)
      → All (IsMasked mask rows cols) cells
      → All (InGrid min_cells rows cols) (region_if min_cells cells)
  unfolding region_if
  region_if-InGrid min_cells [] h = tt
  region_if-InGrid min_cells (a ∷ cells) h =
      elim (Bool-cases (ltb (suc (length cells)) min_cells)) [
        | inl few ↦ rw few tt
        | inr many ↦ rw many (
          record {
            rows_in = side-Bounded row_of rows a cells (λ x m. m.row) h;
            cols_in = side-Bounded col_of cols a cells (λ x m. m.col) h;
            enough = ground arith;
          },
          tt,
        )
      ]

  -- a cell is visited to the end, and gives at most regions of the grid
  record Visits (min_cells : ℕ) (o : Option (List Region × List Cell)) : Type 0 where
    found : List Region
    later : List Cell
    ended : o ≡ some (found, later)
    in_grid : All (InGrid min_cells rows cols) found

  visit-Visits :
      (min_cells : ℕ) (seen : List Cell) (a : Cell)
      → a.0 < rows
      → a.1 < cols
      → Visits min_cells (visit mask rows cols min_cells seen a)
  unfolding visit
  visit-Visits min_cells seen a h k = elim (Bool-cases (not (mask a.0 a.1) || contains a seen)) [
    | inl skipped ↦ record { found = []; later = seen; ended = rw skipped refl; in_grid = tt }
    | inr fresh ↦
        let flooded =
          flood_enough mask rows cols a seen (record { row = h; col = k; masked = ground arith }) in
        record {
          found = region_if min_cells flooded.cells;
          later = flooded.seen;
          ended = rw (fresh, flooded.ended) refl;
          in_grid = region_if-InGrid min_cells flooded.cells flooded.masked;
        }
  ]

  record VisitsAll (min_cells : ℕ) (o : Option (List Region)) : Type 0 where
    regions : List Region
    ended : o ≡ some regions
    in_grid : All (InGrid min_cells rows cols) regions

  visit_all-VisitsAll :
      (min_cells : ℕ) (seen cells : List Cell)
      → All (IsCell rows cols) cells
      → VisitsAll min_cells (visit_all mask rows cols min_cells seen cells)
  unfolding visit_all
  visit_all-VisitsAll min_cells seen [] h = record { regions = []; ended = refl; in_grid = tt }
  visit_all-VisitsAll min_cells seen (a ∷ cells) h =
      let first = visit-Visits min_cells seen a h.0.0 h.0.1 in
      let rest = visit_all-VisitsAll min_cells first.later cells h.1 in
      record {
        regions = first.found ++ rest.regions;
        ended = rw (first.ended, rest.ended) refl;
        in_grid =
            All-append (InGrid min_cells rows cols) first.found rest.regions first.in_grid
              rest.in_grid;
      }

row_from-IsCell :
    (rows cols r c n : ℕ) → r < rows → c + n ≤ cols → All (IsCell rows cols) (row_from r c n)
row_from-IsCell rows cols r c zero h k = tt
row_from-IsCell rows cols r c (suc n) h k =
    ((h, omega arith), row_from-IsCell rows cols r (suc c) n h (omega arith))

grid_from-IsCell : (rows cols r n : ℕ) → r + n ≤ rows → All (IsCell rows cols) (grid_from r n cols)
grid_from-IsCell rows cols r zero h = tt
grid_from-IsCell rows cols r (suc n) h =
    All-append (IsCell rows cols) (row_from r 0 cols) (grid_from (suc r) n cols)
      (row_from-IsCell rows cols r 0 cols (omega arith) (omega arith))
      (grid_from-IsCell rows cols (suc r) n (omega arith))

-- what the grouping returns
pub record Groups (min_cells rows cols : ℕ) (o : Option (List Region)) : Type 0 where
  pub regions : List Region
  pub ended : o ≡ some regions
  pub in_grid : All (InGrid min_cells rows cols) regions
  pub falling : Falling regions

-- The floods end, and every region lies in the grid, is not empty, has at least the cells asked for,
-- and comes before the smaller ones.
pub grid_regions-Groups :
    (mask : ℕ → ℕ → Bool) (rows cols min_cells : ℕ)
    → Groups min_cells rows cols (grid_regions mask rows cols min_cells)
unfolding grid_regions
grid_regions-Groups mask rows cols min_cells =
    let all =
      visit_all-VisitsAll mask rows cols min_cells [] (grid rows cols)
        (grid_from-IsCell rows cols 0 rows (omega arith)) in
    record {
      regions = sort_regions all.regions;
      ended = rw (all.ended) refl;
      in_grid = sort_regions-All (InGrid min_cells rows cols) all.regions all.in_grid;
      falling = sort_regions-Falling all.regions;
    }
