-- ===== src/Incident/Zones/Rectangle.antt =====
-- firemex/incident/zones.py: the ray-casting test on a rectangle.
use fireme_x.Base.{
  differ, ap, ltb-false, ltb-false→le, lt→ltb, ℕ, ◌+◌, ◌*◌, ◌≤◌, ◌<◌, ◌≡◌, ◌↔◌, true, false, ◌&&◌,
  [], ◌∷◌, arith, ltb, ltb→lt, Bool-cases, inl, inr,
}
use fireme_x.Config.Types.{Point, Polygon}
use fireme_x.Incident.Zones.{point_in_polygon, crosses, distance}
use native.Mathlib.Nat.{mul-le-mul_right, mul-lt-mul_of_pos_right}

-- the corners of a rectangle, clockwise from the top left
abbrev pub rectangle : ℕ → ℕ → ℕ → ℕ → Polygon
rectangle x1 y1 x2 y2 =
    record { x = x1; y = y1 }
    ∷ record { x = x2; y = y1 }
    ∷ record { x = x2; y = y2 }
    ∷ record { x = x1; y = y2 }
    ∷ []

-- comparing sums with a common part, scaled by a positive height
scaled_lt : (a b h r : ℕ) → 0 < h → ltb (a * h + r) (b * h + r) ≡ ltb a b
scaled_lt a b h r p = elim (Bool-cases (ltb a b)) [
  | inl less ↦
      rw less (lt→ltb _ _ (omega (arith, mul-lt-mul_of_pos_right {k = h} (ltb→lt a b less) p)))
  | inr more ↦
      rw more
        (ltb-false _ _ (omega (arith, mul-le-mul_right {m = b} {n = a} h (ltb-false→le a b more))))
]

crosses_vertical :
    (p : Point) (x ya yb : ℕ)
    → crosses p (record { x = x; y = ya }) (record { x = x; y = yb })
      ≡ (differ (ltb p.y ya) (ltb p.y yb) && ltb p.x x)
crosses_vertical p x ya yb = elim (Bool-cases (differ (ltb p.y ya) (ltb p.y yb))) [
  | inl crossing ↦
      ap (λ t. differ (ltb p.y ya) (ltb p.y yb) && t)
        (scaled_lt p.x x (distance yb ya) (distance p.y ya * x) (ground arith))
  | inr beside ↦ rw beside
]

crosses_level :
    (p : Point) (xa xb y : ℕ)
    → crosses p (record { x = xa; y = y }) (record { x = xb; y = y }) ≡ false
crosses_level p xa xb y = ground arith

-- The ray-casting test holds of a point and a rectangle exactly when the point lies between the
-- sides, the left and the top side included and the right and the bottom side left out.
pub point_in_polygon-rectangle :
    (p : Point) (x1 y1 x2 y2 : ℕ)
    → x1 ≤ x2
    → y1 ≤ y2
    → (point_in_polygon p (rectangle x1 y1 x2 y2) ≡ true)
      ↔ ((x1 ≤ p.x) × (p.x < x2) × (y1 ≤ p.y) × (p.y < y2))
unfolding point_in_polygon
point_in_polygon-rectangle p x1 y1 x2 y2 wide tall =
    rw
      (
        crosses_level p x1 x2 y1,
        crosses_vertical p x2 y1 y2,
        crosses_level p x2 x1 y2,
        crosses_vertical p x1 y2 y1,
      )
      (λ h. ground arith, λ h. ground arith)
