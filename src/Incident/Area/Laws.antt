-- ===== src/Incident/Area/Laws.antt =====
-- firemex/incident/engine.py: `largest_stable_cluster` against its description.
use native.Mathlib.Decide.{dec_le}
use fireme_x.Base.{ap, refl, ◌≤◌, ◌≡◌, List, [], ◌∷◌, arith, count_if-le, length}
use mathlib.Core.List.{Memᴰ}
use fireme_x.Base.Ratio.{Ratio, ge_ratio}
use fireme_x.Detect.Geometry.{BBox, iou}
use fireme_x.Incident.Area.{cluster_at, best_cluster, largest_stable_cluster}

best_cluster-ge :
    (t : Ratio) (boxes : List BBox) (seed : BBox) (seeds : List BBox)
    → Memᴰ seed seeds
    → cluster_at t boxes seed ≤ best_cluster t boxes seeds
unfolding best_cluster
best_cluster-ge t boxes seed [] m = elim m [ ]
best_cluster-ge t boxes seed (s ∷ ss) (Memᴰ.head e) =
    omega (arith, ap (λ (b : BBox). cluster_at t boxes b) e)
best_cluster-ge t boxes seed (s ∷ ss) (Memᴰ.tail m) =
    omega (arith, best_cluster-ge t boxes seed ss m)

best_cluster-attained :
    (t : Ratio) (boxes : List BBox) (s : BBox) (ss : List BBox)
    → (seed : BBox) × Memᴰ seed (s ∷ ss) × (cluster_at t boxes seed ≡ best_cluster t boxes (s ∷ ss))
unfolding best_cluster
best_cluster-attained t boxes s [] = (s, Memᴰ.head refl, omega arith)
best_cluster-attained t boxes s (r ∷ ss) =
    let (seed, m, e) = best_cluster-attained t boxes r ss in
    elim (dec_le (best_cluster t boxes (r ∷ ss)) (cluster_at t boxes s)) [
      | yes h ↦ (s, Memᴰ.head refl, omega arith)
      | no h ↦ (seed, Memᴰ.tail m, omega (arith, e))
    ]

best_cluster-le : (t : Ratio) (boxes seeds : List BBox) → best_cluster t boxes seeds ≤ length boxes
unfolding best_cluster
best_cluster-le t boxes [] = omega arith
best_cluster-le t boxes (s ∷ ss) = omega (
  arith,
  best_cluster-le t boxes ss,
  count_if-le (λ (other : BBox). ge_ratio (iou s other) t) boxes,
)

-- Of a non-empty list of boxes, the largest stable cluster is the size of the cluster round one of
-- the boxes, no cluster round any of the boxes is larger, and it is at most the number of boxes.
pub largest_stable_cluster_lem :
    (b : BBox) (bs : List BBox) (t : Ratio)
    → ((seed : BBox) × Memᴰ seed (b ∷ bs)
        × (cluster_at t (b ∷ bs) seed ≡ largest_stable_cluster (b ∷ bs) t))
      × ((seed : BBox)
          → Memᴰ seed (b ∷ bs)
          → cluster_at t (b ∷ bs) seed ≤ largest_stable_cluster (b ∷ bs) t)
      × (largest_stable_cluster (b ∷ bs) t ≤ length (b ∷ bs))
unfolding largest_stable_cluster
largest_stable_cluster_lem b bs t = (
  best_cluster-attained t (b ∷ bs) b bs,
  λ seed m. best_cluster-ge t (b ∷ bs) seed (b ∷ bs) m,
  best_cluster-le t (b ∷ bs) (b ∷ bs),
)

pub largest_stable_cluster-le :
    (boxes : List BBox) (t : Ratio) → largest_stable_cluster boxes t ≤ length boxes
unfolding largest_stable_cluster
largest_stable_cluster-le boxes t = best_cluster-le t boxes boxes
