-- ===== src/Detect/Regions/Component.antt =====
-- firemex/detect/stub.py, `_grid_regions`: the `while queue` loop finds what can be reached from its
-- first cell.
use fireme_x.Base.{
  ℕ, zero, suc, ◌*◌, ◌≤◌, ◌≡◌, refl, Bool, true, ◌||◌, Option, some, List, [], ◌∷◌, ◌++◌, arith,
  All, All-append, All-mono,
}
use fireme_x.Detect.Regions.{Cell, contains, neighbours, is_free, reach_one, reach, flood}
use fireme_x.Detect.Regions.Cells.{same_refl, unseen-grid}
use fireme_x.Detect.Regions.Flood.{IsMasked, rounds, reach-rounds, if-elim}

append-contains :
    (x : Cell) (xs ys : List Cell) → contains x (xs ++ ys) ≡ (contains x xs || contains x ys)
append-contains x [] ys = refl
append-contains x (y ∷ xs) ys = ground (arith, append-contains x xs ys)

All-contains : (cells : List Cell) → All (λ n. contains n cells ≡ true) cells
All-contains [] = tt
All-contains (x ∷ cells) = (
  ground (arith, same_refl x),
  All-mono (λ n. contains n cells ≡ true) (λ n. contains n (x ∷ cells) ≡ true) cells
      (λ n h. ground arith) (All-contains cells),
)

module _ (mask : ℕ → ℕ → Bool) (rows cols : ℕ) where
  -- the cells that can be reached from a over touching cells of the mask
  pub data Linked (a : Cell) : Cell → Type 0 where
    start : Linked a a
    touch :
        (x n : Cell)
        → Linked a x
        → contains n (neighbours x) ≡ true
        → IsMasked mask rows cols n
        → Linked a n

  -- where a cell of the mask is bound to have a property
  abbrev pub Where : (Cell → Type 0) → Cell → Type 0
  Where P n = IsMasked mask rows cols n → P n

  is_free-IsMasked :
      (n : Cell) (seen : List Cell)
      → is_free mask rows cols n seen ≡ true
      → IsMasked mask rows cols n
  is_free-IsMasked n seen h = record {
    row = ground arith;
    col = ground arith;
    masked = ground arith;
  }

  reach-Where :
      (P : Cell → Type 0) (ns : List Cell) (w : List Cell × List Cell)
      → All (Where P) ns
      → All P w.0
      → All P (reach mask rows cols ns w).0
  unfolding reach reach_one
  reach-Where P [] w h q = q
  reach-Where P (n ∷ ns) w h q = reach-Where P ns (reach_one mask rows cols n w) h.1 (
      if-elim (λ v. All P v.0) (is_free mask rows cols n w.1) (w.0 ++ n ∷ [], n ∷ w.1) w
        (λ free. All-append P w.0 (n ∷ []) q (h.0 (is_free-IsMasked n w.1 free), tt)) (λ taken. q))

  -- the cells seen are those of the queue and what was seen before
  abbrev pub Keeps : (Cell → Bool) → List Cell × List Cell → Type 0
  Keeps before w = (x : Cell) → contains x w.1 ≡ (contains x w.0 || before x)

  reach-Keeps :
      (before : Cell → Bool) (ns : List Cell) (w : List Cell × List Cell)
      → Keeps before w
      → Keeps before (reach mask rows cols ns w)
  unfolding reach reach_one
  reach-Keeps before [] w h = h
  reach-Keeps before (n ∷ ns) w h = reach-Keeps before ns (reach_one mask rows cols n w) (
      if-elim (Keeps before) (is_free mask rows cols n w.1) (w.0 ++ n ∷ [], n ∷ w.1) w
        (λ free x. ground (arith, append-contains x w.0 (n ∷ []), h x)) (λ taken. h))

  reach-contains :
      (x : Cell) (ns : List Cell) (w : List Cell × List Cell)
      → contains x w.1 ≡ true
      → contains x (reach mask rows cols ns w).1 ≡ true
  unfolding reach reach_one
  reach-contains x [] w h = h
  reach-contains x (n ∷ ns) w h = reach-contains x ns (reach_one mask rows cols n w) (
      if-elim (λ v. contains x v.1 ≡ true) (is_free mask rows cols n w.1) (w.0 ++ n ∷ [], n ∷ w.1) w
        (λ free. ground arith) (λ taken. h))

  -- every neighbour of the mask is seen
  reach-Closed :
      (ns : List Cell) (w : List Cell × List Cell)
      → All (Where (λ n. contains n (reach mask rows cols ns w).1 ≡ true)) ns
  unfolding reach reach_one
  reach-Closed [] w = tt
  reach-Closed (n ∷ ns) w = (
    λ m. reach-contains n ns (reach_one mask rows cols n w) (
        if-elim (λ v. contains n v.1 ≡ true) (is_free mask rows cols n w.1) (w.0 ++ n ∷ [], n ∷ w.1)
          w (λ free. ground (arith, same_refl n))
          (λ taken. let r = m.row in let c = m.col in let k = m.masked in ground arith)),
    reach-Closed ns (reach_one mask rows cols n w),
  )

  -- every neighbour that is in the mask has been seen
  abbrev pub Closed : List Cell → List Cell → Type 0
  Closed seen cells = All (λ x. All (Where (λ n. contains n seen ≡ true)) (neighbours x)) cells

  Closed-reach :
      (ns cells : List Cell) (w : List Cell × List Cell)
      → Closed w.1 cells
      → Closed (reach mask rows cols ns w).1 cells
  Closed-reach ns cells w =
      All-mono (λ x. All (Where (λ n. contains n w.1 ≡ true)) (neighbours x))
        (λ x. All (Where (λ n. contains n (reach mask rows cols ns w).1 ≡ true)) (neighbours x))
        cells
        (λ x.
          All-mono (Where (λ n. contains n w.1 ≡ true))
            (Where (λ n. contains n (reach mask rows cols ns w).1 ≡ true)) (neighbours x)
            (λ n h m. reach-contains n ns w (h m)))

  -- The loop has ended with cells that can all be reached from a. What is seen are these and what was
  -- seen before, and the neighbours of these cells that are in the mask are seen.
  pub record IsComponent (a : Cell) (before : List Cell) (o : Option (List Cell × List Cell))
      : Type 0 where
    pub cells : List Cell
    pub seen : List Cell
    pub ended : o ≡ some (cells, seen)
    pub linked : All (Linked a) cells
    pub exact : (x : Cell) → contains x seen ≡ (contains x cells || contains x before)
    pub closed : Closed seen cells

  Linked-neighbours : (a x : Cell) → Linked a x → All (Where (Linked a)) (neighbours x)
  Linked-neighbours a x h =
      All-mono (λ n. contains n (neighbours x) ≡ true) (Where (Linked a)) (neighbours x)
        (λ n near m. touch x n h near m) (All-contains (neighbours x))

  flood_fuel-IsComponent :
      (a : Cell) (before : List Cell) (fuel : ℕ) (queue seen cells : List Cell)
      → rounds mask rows cols (queue, seen) ≤ fuel
      → All (Linked a) queue
      → All (Linked a) cells
      → Keeps (λ x. contains x cells || contains x before) (queue, seen)
      → Closed seen cells
      → IsComponent a before (flood mask rows cols fuel (queue, seen) cells)
  unfolding flood
  flood_fuel-IsComponent a before fuel [] seen cells h q k e c = record {
    cells = cells;
    seen = seen;
    ended = refl;
    linked = k;
    exact = e;
    closed = c;
  }
  flood_fuel-IsComponent a before zero (x ∷ queue) seen cells h q k e c = ground arith
  flood_fuel-IsComponent a before (suc fuel) (x ∷ queue) seen cells h q k e c =
      let ns = neighbours x in
      let next = reach mask rows cols ns (queue, seen) in
      let fewer = reach-rounds mask rows cols ns (queue, seen) in
      flood_fuel-IsComponent a before fuel next.0 next.1 (cells ++ x ∷ []) (omega arith)
        (reach-Where (Linked a) ns (queue, seen) (Linked-neighbours a x q.0) q.1)
        (All-append (Linked a) cells (x ∷ []) k (q.0, tt))
        (reach-Keeps (λ y. contains y (cells ++ x ∷ []) || contains y before) ns (queue, seen)
          (λ y. ground (arith, append-contains y cells (x ∷ []), e y)))
        (All-append (λ y. All (Where (λ n. contains n next.1 ≡ true)) (neighbours y)) cells (x ∷ [])
          (Closed-reach ns cells (queue, seen) c) (reach-Closed ns (queue, seen), tt))

  -- The flood from any cell ends within one round for each cell of the grid and one more. It finds only
  -- cells that are linked to the first one over touching cells of the mask; what is seen afterwards are
  -- these and what was seen before, and has every neighbour of theirs that is in the mask.
  pub flood-IsComponent :
      (a : Cell) (before : List Cell)
      → IsComponent a before (flood mask rows cols (suc (rows * cols)) (a ∷ [], a ∷ before) [])
  flood-IsComponent a before =
      let bound = unseen-grid rows cols (a ∷ before) in
      flood_fuel-IsComponent a before (suc (rows * cols)) (a ∷ []) (a ∷ before) [] (omega arith)
        (start, tt) tt (λ x. ground arith) tt
