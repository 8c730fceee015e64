-- ===== src/Detect/Regions/Flood.antt =====
-- firemex/detect/stub.py, `_grid_regions`: the `while queue` loop ends, and finds cells of the mask.
use fireme_x.Base.{
  ℕ, zero, suc, ◌+◌, ◌*◌, ◌≤◌, ◌<◌, ◌≡◌, refl, Bool, true, false, Option, some, List, [], ◌∷◌, ◌++◌,
  length, if◌then◌else◌, arith, length-append, All, All-append,
}
use fireme_x.Detect.Regions.{Cell, grid, neighbours, is_free, reach_one, reach, flood}
use fireme_x.Detect.Regions.Cells.{contains-grid, unseen, unseen-grid, unseen_lt}

-- what holds in either branch
pub if-elim :
    {A : Type 0} (P : A → Type 0) (b : Bool) (x y : A)
    → (b ≡ true → P x)
    → (b ≡ false → P y)
    → P (if b then x else y)
if-elim P true x y h k = h refl
if-elim P false x y h k = k refl

module _ (mask : ℕ → ℕ → Bool) (rows cols : ℕ) where
  -- a cell of the grid that is in the mask
  pub record IsMasked (a : Cell) : Type 0 where
    pub row : a.0 < rows
    pub col : a.1 < cols
    pub masked : mask a.0 a.1 ≡ true

  -- the rounds that are left: each takes a cell off the queue, and only a cell not seen joins it
  abbrev pub rounds : List Cell × List Cell → ℕ
  rounds w = length w.0 + unseen w.1 (grid rows cols)

  reach_one-rounds :
      (n : Cell) (w : List Cell × List Cell) → rounds (reach_one mask rows cols n w) ≤ rounds w
  unfolding reach_one
  reach_one-rounds n w =
      if-elim (λ v. rounds v ≤ rounds w) (is_free mask rows cols n w.1) (w.0 ++ n ∷ [], n ∷ w.1) w
        (λ free.
          let fewer =
            unseen_lt n w.1 (grid rows cols)
              (contains-grid rows cols n (ground arith) (ground arith)) (ground arith) in
          ground (arith, length-append w.0 (n ∷ [])))
        (λ taken. omega arith)

  reach_one-All :
      (n : Cell) (w : List Cell × List Cell)
      → All IsMasked w.0
      → All IsMasked (reach_one mask rows cols n w).0
  unfolding reach_one
  reach_one-All n w h =
      if-elim (λ v. All IsMasked v.0) (is_free mask rows cols n w.1) (w.0 ++ n ∷ [], n ∷ w.1) w
        (λ free.
          All-append IsMasked w.0 (n ∷ []) h
            (record { row = ground arith; col = ground arith; masked = ground arith }, tt))
        (λ taken. h)

  pub reach-rounds :
      (ns : List Cell) (w : List Cell × List Cell) → rounds (reach mask rows cols ns w) ≤ rounds w
  unfolding reach
  reach-rounds [] w = omega arith
  reach-rounds (n ∷ ns) w =
      let first = reach_one-rounds n w in
      let later = reach-rounds ns (reach_one mask rows cols n w) in omega arith

  reach-All :
      (ns : List Cell) (w : List Cell × List Cell)
      → All IsMasked w.0
      → All IsMasked (reach mask rows cols ns w).0
  unfolding reach
  reach-All [] w h = h
  reach-All (n ∷ ns) w h = reach-All ns (reach_one mask rows cols n w) (reach_one-All n w h)

  -- the loop has ended, with cells of the mask
  pub record Floods (o : Option (List Cell × List Cell)) : Type 0 where
    pub cells : List Cell
    pub seen : List Cell
    pub ended : o ≡ some (cells, seen)
    pub masked : All IsMasked cells

  pub flood-Floods :
      (fuel : ℕ) (queue seen cells : List Cell)
      → rounds (queue, seen) ≤ fuel
      → All IsMasked queue
      → All IsMasked cells
      → Floods (flood mask rows cols fuel (queue, seen) cells)
  unfolding flood
  flood-Floods fuel [] seen cells h q k = record {
    cells = cells;
    seen = seen;
    ended = refl;
    masked = k;
  }
  flood-Floods zero (a ∷ queue) seen cells h q k = ground arith
  flood-Floods (suc fuel) (a ∷ queue) seen cells h q k =
      let next = reach mask rows cols (neighbours a) (queue, seen) in
      let fewer = reach-rounds (neighbours a) (queue, seen) in
      flood-Floods fuel next.0 next.1 (cells ++ a ∷ []) (omega arith)
        (reach-All (neighbours a) (queue, seen) q.1)
        (All-append IsMasked cells (a ∷ []) k (q.0, tt))

  -- from one cell of the mask, one round for each cell of the grid and one more are enough
  pub flood_enough :
      (a : Cell) (seen : List Cell)
      → IsMasked a
      → Floods (flood mask rows cols (suc (rows * cols)) (a ∷ [], a ∷ seen) [])
  flood_enough a seen h =
      let bound = unseen-grid rows cols (a ∷ seen) in
      flood-Floods (suc (rows * cols)) (a ∷ []) (a ∷ seen) [] (omega arith) (h, tt) tt
