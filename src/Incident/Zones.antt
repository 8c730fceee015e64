-- ===== src/Incident/Zones.antt =====
-- firemex/incident/zones.py: exclusion zones. A point lies on the same grid as the polygon's corners.
-- The sample points of a box are cell centres, `x1 + width * (i + 0.5) / samples`; they lie on the
-- grid once everything is scaled by `2 * samples`, which changes no comparison.
use fireme_x.Base.{
  differ, ℕ, zero, suc, ◌+◌, ◌-◌, ◌*◌, min, max, Bool, true, false, not, ◌&&◌, ◌||◌, List, [], ◌∷◌,
  ◌++◌, map, ltb, leb, if◌then◌else◌, length, keep, any,
}
use fireme_x.Base.Ratio.{Ratio, ge_ratio}
use fireme_x.Detect.Geometry.{BBox, width, height, area}
use fireme_x.Config.Types.{Point, Polygon}
pub mod Rectangle
pub mod Mask
pub mod Apart

abbrev pub distance : ℕ → ℕ → ℕ
distance a b = if leb a b then b - a else a - b

-- Does the ray at `p.y` cross the edge from `a` to `b`, to the right of `p`? The crossing is at
-- `a.x + t * (b.x - a.x)` with `t = (y - a.y) / (b.y - a.y)`; both sides are multiplied by the
-- height of the edge.
abbrev pub crosses : Point → Point → Point → Bool
crosses p a b =
    let rise = distance p.y a.y in
    let height = distance b.y a.y in
    differ (ltb p.y a.y) (ltb p.y b.y)
    && ltb (p.x * height + rise * a.x) (a.x * height + rise * b.x)

-- the loop over the edges from corner `a` on; the last corner joins `first`
abbrev pub cross_edges : Point → Point → Point → Polygon → Bool → Bool
cross_edges p first a [] inside = if crosses p a first then not inside else inside
cross_edges p first a (b ∷ corners) inside =
    cross_edges p first b corners (if crosses p a b then not inside else inside)

unfoldable pub point_in_polygon : Point → Polygon → Bool
point_in_polygon p [] = false
point_in_polygon p (a ∷ corners) = cross_edges p a a corners false

abbrev pub add_corner : BBox → Point → BBox
add_corner b p = record {
  x1 = min b.x1 p.x;
  y1 = min b.y1 p.y;
  x2 = max b.x2 p.x;
  y2 = max b.y2 p.y;
}

grow_bounds : BBox → Polygon → BBox
grow_bounds b [] = b
grow_bounds b (p ∷ ps) = grow_bounds (add_corner b p) ps

-- `polygon_bounds` of a polygon with its first corner apart: `min` of no corners is a ValueError,
-- and a mask keeps only zones of three corners or more
unfoldable pub polygon_bounds : Point → Polygon → BBox
unfolding grow_bounds
polygon_bounds p ps = grow_bounds (record { x1 = p.x; y1 = p.y; x2 = p.x; y2 = p.y }) ps

unfoldable pub bounds_intersect : BBox → BBox → Bool
bounds_intersect a b = not (ltb a.x2 b.x1 || ltb b.x2 a.x1 || ltb a.y2 b.y1 || ltb b.y2 a.y1)

abbrev pub scale_point : ℕ → Point → Point
scale_point k p = record { x = k * p.x; y = k * p.y }

-- the sample point (i, j), scaled by `2 * samples`
abbrev pub sample_point : BBox → ℕ → ℕ → ℕ → Point
sample_point b samples i j = record {
  x = 2 * samples * b.x1 + width b * (2 * i + 1);
  y = 2 * samples * b.y1 + height b * (2 * j + 1);
}

-- the inner loop: how many of the sample points (i, 0) to (i, j - 1) are inside
unfoldable pub count_column : (Point → Bool) → BBox → ℕ → ℕ → ℕ → ℕ
count_column inside b samples i zero = 0
count_column inside b samples i (suc j) =
    let rest = count_column inside b samples i j in
    if inside (sample_point b samples i j) then suc rest else rest

unfoldable pub count_samples : (Point → Bool) → BBox → ℕ → ℕ → ℕ
unfolding count_column
count_samples inside b samples zero = 0
count_samples inside b samples (suc i) =
    count_column inside b samples i samples + count_samples inside b samples i

-- `box_overlap_fraction`
unfoldable pub box_overlap_fraction : BBox → Polygon → ℕ → Ratio
unfolding count_samples point_in_polygon polygon_bounds bounds_intersect
box_overlap_fraction b [] samples = record { num = 0; den = 1 }
box_overlap_fraction b (p ∷ ps) samples =
    if leb (area b) 0 || not (bounds_intersect b (polygon_bounds p ps))
    then record { num = 0; den = 1 }
    else record {
      num =
          count_samples (λ point. point_in_polygon point (map (scale_point (2 * samples)) (p ∷ ps)))
            b samples samples;
      den = samples * samples;
    }

pub record ZoneMask : Type 0 where
  pub zones : List Polygon
  pub overlap_threshold : Ratio

-- `ZoneMask(zones)` with the default threshold 0.6
unfoldable pub new_mask : List Polygon → ZoneMask
new_mask zones = record {
  zones = keep (λ zone. leb 3 (length zone)) zones;
  overlap_threshold = record { num = 3; den = 5 };
}

-- `ZoneMask.excludes`, with the default of seven samples each way
unfoldable pub excludes : ZoneMask → BBox → Bool
unfolding box_overlap_fraction
excludes m b = any (λ zone. ge_ratio (box_overlap_fraction b zone 7) m.overlap_threshold) m.zones
