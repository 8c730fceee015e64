-- ===== src/Detect/Stub/Sound.antt =====
-- firemex/detect/stub.py: what `StubDetector` answers to an image.
use native.Mathlib.Nat.{mul-le-mul_right}
use fireme_x.Base.Options.{◌>>=◌}
use fireme_x.Base.{
  length-take, All-take, ℕ, ◌*◌, ◌/◌, ◌≤◌, ◌<◌, ◌≡◌, refl, min, Bool, true, false, not, ◌||◌,
  Option, some, List, [], ◌∷◌, ◌++◌, take, length, ltb, leb, ◌==◌, arith, Bool-cases, inl, inr, All,
  All-append,
}
use fireme_x.Base.Int.{div_mono}
use fireme_x.Detect.Geometry.{BBox, new_box}
use fireme_x.Detect.Frames.{Label, Detection, is_fire, is_smoke}
use fireme_x.Detect.Regions.{Region}
use fireme_x.Detect.Regions.Found.{InGrid, grid_regions-Groups}
use fireme_x.Detect.Stub.{
  Picture, StubDetector, fire_mask, smoke_mask, sections, cell_over, region_confidence, region_box,
  region_detections, regions_to_detections, insert_detection, sort_detections, predict_one,
}

module _ (one : ℕ) where
  -- a box in the frame, with its corners in order
  pub record InFrame (b : BBox) : Type 0 where
    pub wide : b.x1 ≤ b.x2 × b.x2 ≤ one
    pub tall : b.y1 ≤ b.y2 × b.y2 ≤ one

  -- fire or smoke, never surer than 0.94
  pub record IsSound (d : Detection) : Type 0 where
    pub known : (is_fire d.label || is_smoke d.label) ≡ true
    pub unsure : d.confidence ≤ 94 * one / 100
    pub in_frame : InFrame d.box

  record Boxes (o : Option BBox) : Type 0 where
    box : BBox
    ended : o ≡ some box
    in_frame : InFrame box

  clipped_box-Boxes :
      (x1 y1 x2 y2 : ℕ)
      → x1 ≤ x2
      → y1 ≤ y2
      → Boxes (do
        b ← new_box x1 y1 x2 y2
        new_box (min b.x1 one) (min b.y1 one) (min b.x2 one) (min b.y2 one))
  unfolding new_box
  clipped_box-Boxes x1 y1 x2 y2 h k = record {
    box = record { x1 = min x1 one; y1 = min y1 one; x2 = min x2 one; y2 = min y2 one };
    ended = ground arith;
    in_frame = record { wide = (omega arith, omega arith); tall = (omega arith, omega arith) };
  }

  ordered : {a b : ℕ} → a < b → a * one ≤ b * one
  ordered h = mul-le-mul_right one (omega arith)

  region_box-Boxes :
      (min_cells rows cols : ℕ) (g : Region)
      → InGrid min_cells rows cols g
      → Boxes (region_box one rows cols g)
  unfolding region_box
  region_box-Boxes min_cells rows cols g h =
      clipped_box-Boxes (g.col0 * one / cols) (g.row0 * one / rows) (g.col1 * one / cols)
        (g.row1 * one / rows) (div_mono (g.col0 * one) (g.col1 * one) cols (ordered h.cols_in.0))
        (div_mono (g.row0 * one) (g.row1 * one) rows (ordered h.rows_in.0))

  -- detections are made, and are sound
  pub record Answers (o : Option (List Detection)) : Type 0 where
    pub detections : List Detection
    pub ended : o ≡ some detections
    pub sound : All IsSound detections

  region_detections-Answers :
      (min_cells rows cols : ℕ) (label : Label) (base cell_fill : ℕ) (gs : List Region)
      → (is_fire label || is_smoke label) ≡ true
      → All (InGrid min_cells rows cols) gs
      → Answers (region_detections one rows cols label base cell_fill gs)
  unfolding region_detections
  region_detections-Answers min_cells rows cols label base cell_fill [] k h = record {
    detections = [];
    ended = refl;
    sound = tt;
  }
  region_detections-Answers min_cells rows cols label base cell_fill (g ∷ gs) k h =
      let first = region_box-Boxes min_cells rows cols g h.0 in
      let rest = region_detections-Answers min_cells rows cols label base cell_fill gs k h.1 in
      record {
        detections =
            record {
              label = label;
              confidence = region_confidence one base cell_fill g;
              box = first.box;
            }
            ∷ rest.detections;
        ended = rw (first.ended, rest.ended) refl;
        sound = (record { known = k; unsure = omega arith; in_frame = first.in_frame }, rest.sound);
      }

  regions_to_detections-Answers :
      (d : StubDetector) (p : Picture) (mask : ℕ → ℕ → Bool) (label : Label) (base cell_fill : ℕ)
      → 0 < p.height
      → 0 < p.width
      → (is_fire label || is_smoke label) ≡ true
      → Answers (regions_to_detections one d p mask label base cell_fill)
  unfolding regions_to_detections
  regions_to_detections-Answers d p mask label base cell_fill h w k =
      let groups =
        grid_regions-Groups (cell_over cell_fill p mask) (sections p.height) (sections p.width)
          d.min_cells in
      let some_split : (sections p.height == 0 || sections p.width == 0) ≡ false = ground arith in
      let made =
        region_detections-Answers d.min_cells (sections p.height) (sections p.width) label base
          cell_fill (take d.max_detections groups.regions) k
          (All-take (InGrid d.min_cells (sections p.height) (sections p.width)) d.max_detections
            groups.regions groups.in_grid) in
      record {
        detections = made.detections;
        ended = rw (some_split, groups.ended, made.ended) refl;
        sound = made.sound;
      }

  insert_detection-All :
      (P : Detection → Type 0) (d : Detection) (ds : List Detection)
      → P d
      → All P ds
      → All P (insert_detection d ds)
  unfolding insert_detection
  insert_detection-All P d [] h k = (h, tt)
  insert_detection-All P d (x ∷ ds) h k = elim (Bool-cases (leb x.confidence d.confidence)) [
    | inl first ↦ rw first (h, k)
    | inr later ↦ rw later (k.0, insert_detection-All P d ds h k.1)
  ]

  sort_detections-All :
      (P : Detection → Type 0) (ds : List Detection) → All P ds → All P (sort_detections ds)
  unfolding sort_detections
  sort_detections-All P [] h = tt
  sort_detections-All P (d ∷ ds) h =
      insert_detection-All P d (sort_detections ds) h.0 (sort_detections-All P ds h.1)

  -- what is answered to one image
  pub record AnswersAtMost (n : ℕ) (o : Option (List Detection)) : Type 0 where
    pub answers : Answers o
    pub few : length answers.detections ≤ n

  -- An image with pixels is always answered, whatever its colours: with at most as many detections as are
  -- asked for, each of fire or smoke, never surer than 0.94, in a box that lies in the frame.
  pub predict_one-Answers :
      (d : StubDetector) (p : Picture)
      → 0 < p.height
      → 0 < p.width
      → AnswersAtMost d.max_detections (predict_one one d p)
  unfolding predict_one
  predict_one-Answers d p h w = elim (Bool-cases (not (p.ndim == 3) || ltb p.channels 3)) [
    | inl other ↦ record {
      answers = record { detections = []; ended = rw other refl; sound = tt };
      few = omega arith;
    }
    | inr coloured ↦
        let fires =
          regions_to_detections-Answers d p (fire_mask p) Label.fire d.fire_confidence 350 h w
            refl in
        let smokes =
          regions_to_detections-Answers d p (smoke_mask p) Label.smoke d.smoke_confidence 550 h w
            refl in
        let all = fires.detections ++ smokes.detections in
        record {
          answers = record {
            detections = take d.max_detections (sort_detections all);
            ended = rw (coloured, fires.ended, smokes.ended) refl;
            sound = All-take IsSound d.max_detections (sort_detections all) (
                sort_detections-All IsSound all
                  (All-append IsSound fires.detections smokes.detections fires.sound smokes.sound));
          };
          few = length-take d.max_detections (sort_detections all);
        }
  ]
