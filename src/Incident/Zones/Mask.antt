-- ===== src/Incident/Zones/Mask.antt =====
-- firemex/incident/zones.py: what the exclusion test says of a box inside a rectangular zone, and the
-- range of the overlap fraction.
use fireme_x.Base.{
  ap, ℕ, zero, suc, ◌+◌, ◌-◌, ◌*◌, ◌≤◌, ◌<◌, ◌≡◌, refl, Bool, true, List, [], ◌∷◌, ◌++◌, map, arith,
  leb, length, keep, any,
}
use native.Mathlib.Nat.{mul-lt-mul_of_pos_left, mul-le-mul_left}
use fireme_x.Base.Ratio.{ge_ratio}
use fireme_x.Detect.Geometry.{BBox, width, height}
use fireme_x.Config.Types.{Point, Polygon}
use fireme_x.Incident.Zones.{
  point_in_polygon, sample_point, count_column, count_samples, box_overlap_fraction, scale_point,
  new_mask, excludes,
}
use fireme_x.Incident.Zones.Rectangle.{rectangle, point_in_polygon-rectangle}

count_column-le : (inside : Point → Bool) (b : BBox) (n i j : ℕ) → count_column inside b n i j ≤ j
unfolding count_column
count_column-le inside b n i zero = omega arith
count_column-le inside b n i (suc j) = ground (arith, count_column-le inside b n i j)

count_samples-le : (inside : Point → Bool) (b : BBox) (n i : ℕ) → count_samples inside b n i ≤ i * n
unfolding count_samples
count_samples-le inside b n zero = omega arith
count_samples-le inside b n (suc i) =
    omega (arith, count_column-le inside b n i n, count_samples-le inside b n i)

pub box_overlap_fraction-le_one :
    (b : BBox) (zone : Polygon) (n : ℕ)
    → (box_overlap_fraction b zone n).num ≤ (box_overlap_fraction b zone n).den
unfolding box_overlap_fraction
box_overlap_fraction-le_one b [] n = omega arith
box_overlap_fraction-le_one b (p ∷ ps) n = ground (
  arith,
  count_samples-le (λ (point : Point). point_in_polygon point (map (scale_point (2 * n)) (p ∷ ps)))
      b n n,
)

module _ (inside : Point → Bool) (b : BBox) (n : ℕ) where
  count_column_full :
      (i j : ℕ)
      → j ≤ n
      → ((k : ℕ) → k < n → inside (sample_point b n i k) ≡ true)
      → count_column inside b n i j ≡ j
  unfolding count_column
  count_column_full i zero h all = refl
  count_column_full i (suc j) h all = rw (all j h) (rw (count_column_full i j (omega arith) all))

  count_samples_full :
      (i : ℕ)
      → i ≤ n
      → ((k j : ℕ) → k < n → j < n → inside (sample_point b n k j) ≡ true)
      → count_samples inside b n i ≡ i * n
  unfolding count_samples
  count_samples_full zero h all = omega arith
  count_samples_full (suc i) h all = omega (
    arith,
    count_column_full i n (omega arith) (λ j hj. all i j h hj),
    count_samples_full i (omega arith) all,
  )

scaled_side : (x1 x2 k : ℕ) → x1 ≤ x2 → k * x1 + (x2 - x1) * k ≡ k * x2
scaled_side x1 x2 k h =
    let e : x2 ≡ x1 + (x2 - x1) = omega arith in omega (arith, ap (λ (t : ℕ). k * t) e)

-- a cell centre lies strictly inside the side that it divides
centre_bounds :
    (x1 x2 a c n i : ℕ)
    → x1 < x2
    → a ≤ x1
    → x2 ≤ c
    → i < n
    → (2 * n * a ≤ 2 * n * x1 + (x2 - x1) * (2 * i + 1))
      × (2 * n * x1 + (x2 - x1) * (2 * i + 1) < 2 * n * c)
centre_bounds x1 x2 a c n i p q r h = (
  omega (arith, mul-le-mul_left (2 * n) q),
  omega (
    arith,
    mul-lt-mul_of_pos_left {m = 2 * i + 1} {n = 2 * n} {k = x2 - x1} (omega arith) (omega arith),
    mul-le-mul_left (2 * n) r,
    scaled_side x1 x2 (2 * n) (omega arith),
  ),
)

-- every sample point of a box inside a rectangle lies in the rectangle
sample_point-rectangle :
    (b : BBox) (n x1 y1 x2 y2 i j : ℕ)
    → b.x1 < b.x2
    → b.y1 < b.y2
    → x1 ≤ b.x1
    → b.x2 ≤ x2
    → y1 ≤ b.y1
    → b.y2 ≤ y2
    → i < n
    → j < n
    → point_in_polygon (sample_point b n i j) (map (scale_point (2 * n)) (rectangle x1 y1 x2 y2))
      ≡ true
sample_point-rectangle b n x1 y1 x2 y2 i j wide tall l r t u hi hj =
    let across = centre_bounds b.x1 b.x2 x1 x2 n i wide l r hi in
    let down = centre_bounds b.y1 b.y2 y1 y2 n j tall t u hj in
    (point_in_polygon-rectangle (sample_point b n i j) (2 * n * x1) (2 * n * y1) (2 * n * x2)
        (2 * n * y2) (omega arith) (omega arith)).1
      (across.0, across.1, down.0, down.1)

box_overlap_fraction-rectangle :
    (b : BBox) (n x1 y1 x2 y2 : ℕ)
    → b.x1 < b.x2
    → b.y1 < b.y2
    → x1 ≤ b.x1
    → b.x2 ≤ x2
    → y1 ≤ b.y1
    → b.y2 ≤ y2
    → box_overlap_fraction b (rectangle x1 y1 x2 y2) n ≡ record { num = n * n; den = n * n }
unfolding box_overlap_fraction
box_overlap_fraction-rectangle b n x1 y1 x2 y2 wide tall l r t u = ground (
  arith,
  mul-lt-mul_of_pos_left {m = 0} {n = height b} {k = width b} (omega arith) (omega arith),
  count_samples_full
      (λ (p : Point). point_in_polygon p (map (scale_point (2 * n)) (rectangle x1 y1 x2 y2))) b n n
      (omega arith)
      (λ i j hi hj. sample_point-rectangle b n x1 y1 x2 y2 i j wide tall l r t u hi hj),
)

any_middle {ℓ} :
    {A : Type ℓ} (p : A → Bool) (xs : List A) (x : A) (ys : List A)
    → p x ≡ true
    → any p (xs ++ x ∷ ys) ≡ true
any_middle p [] x ys h = ground arith
any_middle p (y ∷ xs) x ys h = ground (arith, any_middle p xs x ys h)

keep_middle {ℓ} :
    {A : Type ℓ} (p : A → Bool) (xs : List A) (x : A) (ys : List A)
    → p x ≡ true
    → keep p (xs ++ x ∷ ys) ≡ keep p xs ++ x ∷ keep p ys
keep_middle p [] x ys h = ground arith
keep_middle p (y ∷ xs) x ys h = ground (arith, keep_middle p xs x ys h)

-- A box of positive area that lies inside one rectangular zone is excluded, whatever other zones the
-- mask was built from.
pub excludes-rectangle :
    (b : BBox) (before after : List Polygon) (x1 y1 x2 y2 : ℕ)
    → b.x1 < b.x2
    → b.y1 < b.y2
    → x1 ≤ b.x1
    → b.x2 ≤ x2
    → y1 ≤ b.y1
    → b.y2 ≤ y2
    → excludes (new_mask (before ++ rectangle x1 y1 x2 y2 ∷ after)) b ≡ true
unfolding excludes new_mask
excludes-rectangle b before after x1 y1 x2 y2 wide tall l r t u =
    rw
      (keep_middle (λ (zone : Polygon). leb 3 (length zone)) before (rectangle x1 y1 x2 y2) after
        refl)
      (any_middle
        (λ (zone : Polygon). ge_ratio (box_overlap_fraction b zone 7) (record { num = 3; den = 5 }))
        (keep (λ (zone : Polygon). leb 3 (length zone)) before) (rectangle x1 y1 x2 y2)
        (keep (λ (zone : Polygon). leb 3 (length zone)) after)
        (rw (box_overlap_fraction-rectangle b 7 x1 y1 x2 y2 wide tall l r t u)))
