-- ===== src/Detect/Stub.antt =====
-- firemex/detect/stub.py: `StubDetector`, the heuristic on colours. A pixel has whole levels, the
-- thresholds of the masks and of the cells are compared exactly, coordinates and confidences are rounded
-- down to the unit, `one`; `none` is an exception, and the end of a flood's fuel.
use fireme_x.Base.{
  ℕ, zero, suc, ◌+◌, ◌-◌, ◌*◌, ◌/◌, ◌%◌, min, max, Bool, true, false, not, ◌&&◌, ◌||◌, Option, none,
  some, List, [], ◌∷◌, ◌++◌, take, ltb, leb, ◌==◌, if◌then◌else◌,
}
use fireme_x.Base.Options.{◌>>=◌}
use fireme_x.Detect.Geometry.{BBox, new_box}
use fireme_x.Detect.Frames.{Label, Detection}
use fireme_x.Detect.Regions.{Region, grid_regions}
pub mod Sound

-- the array of an image
pub record Picture : Type 0 where
  pub ndim : ℕ
  pub height : ℕ
  pub width : ℕ
  pub channels : ℕ
  pub red : ℕ → ℕ → ℕ
  pub green : ℕ → ℕ → ℕ
  pub blue : ℕ → ℕ → ℕ

-- the confidences and the fill of a cell, in thousandths
pub record StubDetector : Type 0 where
  pub fire_confidence : ℕ
  pub smoke_confidence : ℕ
  pub min_cells : ℕ
  pub max_detections : ℕ

-- `StubDetector()`
abbrev pub stub_detector : StubDetector
stub_detector = record {
  fire_confidence = 620;
  smoke_confidence = 550;
  min_cells = 3;
  max_detections = 4;
}

-- `GRID`
abbrev grid_size : ℕ
grid_size = 24

-- bright and red above all
abbrev pub fire_mask : Picture → ℕ → ℕ → Bool
fire_mask p r c =
    ltb 170 (p.red r c)
    && ltb (128 * p.green r c) (100 * p.red r c)
    && leb (85 * p.blue r c) (100 * p.green r c)

-- of middle brightness and almost without colour: the mean of three levels, and their spread
abbrev pub smoke_mask : Picture → ℕ → ℕ → Bool
smoke_mask p r c =
    let total = p.red r c + p.green r c + p.blue r c in
    let high = max (p.red r c) (max (p.green r c) (p.blue r c)) in
    let low = min (p.red r c) (min (p.green r c) (p.blue r c)) in
    ltb (3 * 85) total && ltb total (3 * 215) && ltb (high - low) 26

-- `np.array_split` of n items: the first index of a section
abbrev pub sections : ℕ → ℕ
sections n = min grid_size n

abbrev pub section_start : ℕ → ℕ → ℕ
section_start n i = i * (n / sections n) + min i (n % sections n)

-- how many pixels of a block are in the mask
abbrev pub count_columns : (ℕ → ℕ → Bool) → ℕ → ℕ → ℕ → ℕ
count_columns mask r c zero = 0
count_columns mask r c (suc n) =
    let rest = count_columns mask r (suc c) n in if mask r c then suc rest else rest

abbrev pub count_block : (ℕ → ℕ → Bool) → ℕ → ℕ → ℕ → ℕ → ℕ
count_block mask r zero c m = 0
count_block mask r (suc n) c m = count_columns mask r c m + count_block mask (suc r) n c m

-- whether the mean of a cell, as `_cell_means` pools it, is above a fill in thousandths
abbrev pub cell_over : ℕ → Picture → (ℕ → ℕ → Bool) → ℕ → ℕ → Bool
cell_over fill p mask i j =
    let r = section_start p.height i in
    let n = section_start p.height (suc i) - r in
    let c = section_start p.width j in
    let m = section_start p.width (suc j) - c in
    ltb (fill * (n * m)) (1000 * count_block mask r n c m)

-- `min(0.94, base_confidence + 0.3 * (fill - cell_fill))`
abbrev pub region_confidence : ℕ → ℕ → ℕ → Region → ℕ
region_confidence one base cell_fill g = min (94 * one / 100) (
    one
    * (10 * base * g.fill.den + 3000 * g.fill.num - 3 * cell_fill * g.fill.den)
    / (10000 * g.fill.den))

-- the box of a region, clipped to the frame
unfoldable pub region_box : ℕ → ℕ → ℕ → Region → Option BBox
unfolding new_box
region_box one rows cols g = do
  b ←
      new_box (g.col0 * one / cols) (g.row0 * one / rows) (g.col1 * one / cols)
        (g.row1 * one / rows)
  new_box (min b.x1 one) (min b.y1 one) (min b.x2 one) (min b.y2 one)

pub region_detections : ℕ → ℕ → ℕ → Label → ℕ → ℕ → List Region → Option (List Detection)
unfolding region_box
region_detections one rows cols label base cell_fill [] = some []
region_detections one rows cols label base cell_fill (g ∷ gs) = do
  box ← region_box one rows cols g
  rest ← region_detections one rows cols label base cell_fill gs
  some (
      record { label = label; confidence = region_confidence one base cell_fill g; box = box }
      ∷ rest)

-- `_regions_to_detections`; an image without pixels cannot be split
unfoldable pub regions_to_detections :
    ℕ → StubDetector → Picture → (ℕ → ℕ → Bool) → Label → ℕ → ℕ → Option (List Detection)
unfolding region_detections grid_regions
regions_to_detections one d p mask label base cell_fill =
    let rows = sections p.height in
    let cols = sections p.width in
    if rows == 0 || cols == 0 then none else (do
      regions ← grid_regions (cell_over cell_fill p mask) rows cols d.min_cells
      region_detections one rows cols label base cell_fill (take d.max_detections regions))

-- the sort by falling confidence, which keeps the order of equals
pub insert_detection : Detection → List Detection → List Detection
insert_detection d [] = d ∷ []
insert_detection d (e ∷ rest) =
    let later = insert_detection d rest in
    if leb e.confidence d.confidence then d ∷ e ∷ rest else e ∷ later

pub sort_detections : List Detection → List Detection
unfolding insert_detection
sort_detections [] = []
sort_detections (d ∷ rest) = insert_detection d (sort_detections rest)

-- `_predict_one`
unfoldable pub predict_one : ℕ → StubDetector → Picture → Option (List Detection)
unfolding regions_to_detections sort_detections
predict_one one d p = if not (p.ndim == 3) || ltb p.channels 3 then some [] else (do
  fires ← regions_to_detections one d p (fire_mask p) Label.fire d.fire_confidence 350
  smokes ← regions_to_detections one d p (smoke_mask p) Label.smoke d.smoke_confidence 550
  some (take d.max_detections (sort_detections (fires ++ smokes))))
