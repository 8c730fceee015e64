-- ===== src/Incident/Zones/Apart.antt =====
-- firemex/incident/zones.py: what the exclusion test says of a box apart from every zone.
use fireme_x.Base.{
  false, All, ◌⊎◌, inl, inr, ℕ, ◌<◌, ◌≡◌, refl, List, [], ◌∷◌, arith, leb, length, keep, any,
}
use fireme_x.Base.Ratio.{ge_ratio}
use fireme_x.Detect.Geometry.{BBox}
use fireme_x.Config.Types.{Point, Polygon}
use fireme_x.Incident.Zones.{
  add_corner, polygon_bounds, bounds_intersect, grow_bounds, box_overlap_fraction, new_mask,
  excludes,
}

-- every corner of the zone lies on one and the same side of the box
abbrev pub Apart : BBox → Polygon → Type 0
Apart b zone =
    All (λ p. p.x < b.x1) zone
    ⊎ All (λ p. b.x2 < p.x) zone
    ⊎ All (λ p. p.y < b.y1) zone
    ⊎ All (λ p. b.y2 < p.y) zone

abbrev corner : Point → BBox
corner p = record { x1 = p.x; y1 = p.y; x2 = p.x; y2 = p.y }

module _ (k : ℕ) where
  grow_bounds-left :
      (c : BBox) (ps : Polygon) → c.x2 < k → All (λ p. p.x < k) ps → (grow_bounds c ps).x2 < k
  unfolding grow_bounds
  grow_bounds-left c [] h a = h
  grow_bounds-left c (p ∷ ps) h a = grow_bounds-left (add_corner c p) ps (omega arith) a.1

  grow_bounds-right :
      (c : BBox) (ps : Polygon) → k < c.x1 → All (λ p. k < p.x) ps → k < (grow_bounds c ps).x1
  unfolding grow_bounds
  grow_bounds-right c [] h a = h
  grow_bounds-right c (p ∷ ps) h a = grow_bounds-right (add_corner c p) ps (omega arith) a.1

  grow_bounds-above :
      (c : BBox) (ps : Polygon) → c.y2 < k → All (λ p. p.y < k) ps → (grow_bounds c ps).y2 < k
  unfolding grow_bounds
  grow_bounds-above c [] h a = h
  grow_bounds-above c (p ∷ ps) h a = grow_bounds-above (add_corner c p) ps (omega arith) a.1

  grow_bounds-below :
      (c : BBox) (ps : Polygon) → k < c.y1 → All (λ p. k < p.y) ps → k < (grow_bounds c ps).y1
  unfolding grow_bounds
  grow_bounds-below c [] h a = h
  grow_bounds-below c (p ∷ ps) h a = grow_bounds-below (add_corner c p) ps (omega arith) a.1

Apart-bounds :
    (b : BBox) (p : Point) (ps : Polygon)
    → Apart b (p ∷ ps)
    → bounds_intersect b (polygon_bounds p ps) ≡ false
unfolding bounds_intersect polygon_bounds
Apart-bounds b p ps (inl h) = ground (arith, grow_bounds-left b.x1 (corner p) ps h.0 h.1)
Apart-bounds b p ps (inr (inl h)) = ground (arith, grow_bounds-right b.x2 (corner p) ps h.0 h.1)
Apart-bounds b p ps (inr (inr (inl h))) =
    ground (arith, grow_bounds-above b.y1 (corner p) ps h.0 h.1)
Apart-bounds b p ps (inr (inr (inr h))) =
    ground (arith, grow_bounds-below b.y2 (corner p) ps h.0 h.1)

any-Apart :
    (b : BBox) (zones : List Polygon)
    → All (Apart b) zones
    → any
        (λ zone. ge_ratio (box_overlap_fraction b zone 7) (record { num = 3; den = 5 }))
        (keep (λ zone. leb 3 (length zone)) zones)
      ≡ false
unfolding box_overlap_fraction
any-Apart b [] h = refl
any-Apart b ([] ∷ zones) h = any-Apart b zones h.1
any-Apart b ((p ∷ ps) ∷ zones) h = ground (arith, Apart-bounds b p ps h.0, any-Apart b zones h.1)

-- A box is not excluded by zones each of which lies wholly on one side of it.
pub excludes-Apart :
    (b : BBox) (zones : List Polygon) → All (Apart b) zones → excludes (new_mask zones) b ≡ false
unfolding excludes new_mask
excludes-Apart b zones h = any-Apart b zones h
