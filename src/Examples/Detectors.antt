-- ===== src/Examples/Detectors.antt =====
-- Runs of the detector's letterbox, its decoding, its suppression and its labels.
use fireme_x.Base.{
  not, false, Bool, leb, ltb, ◌==◌, ◌||◌, ◌&&◌, if◌then◌else◌, ◌+◌, ◌*◌, ℕ, ◌≡◌, refl, true, none,
  some, [], ◌∷◌, arith, length,
}
use fireme_x.Base.Int.{pos, ◌-ℤ◌, ◌+ℤ◌, ◌*ℤ◌}
use fireme_x.Base.Ratio.{Ratio}
use mathlib.Core.List.{reverse}
use fireme_x.Accounts.Text.{codes, text_eq, lower}
use fireme_x.Detect.Frames.{Label}
use fireme_x.Detect.Labels.{
  first_label, canonical_label, by_words, key_of, canonical_label-by_words,
}
use fireme_x.Detect.Regions.{flood}
use fireme_x.Detect.Regions.Component.{IsComponent, flood-IsComponent}
use fireme_x.Detect.Stub.{Picture, stub_detector, predict_one}
use fireme_x.Detect.Stub.Sound.{AnswersAtMost, predict_one-Answers}
use fireme_x.Detect.Onnx.Suppression.{FrameBox, nms, nms_loop, iou_within}
use fireme_x.Detect.Onnx.Suppression.Greedy.{greedy, apart_by, nms-greedy}
use fireme_x.Detect.Onnx.Letterbox.{Image, Resize}
use fireme_x.Detect.Onnx.Cells.{each, Numpy, OnnxDetector, Matrix, Transform, below}
use fireme_x.Detect.Onnx.Decode.{decode_end2end, decode_raw}
use fireme_x.Detect.Onnx.Decode.Valid.{Yields, has_broken_class, decode_end2end-Yields}
use fireme_x.Detect.Onnx.Decode.Raw.{IsArgsort, below-All, decode_raw-Yields}

-- three boxes in a row, each over half of the next
abbrev boxes : ℕ → FrameBox
boxes k = record { x1 = pos (10 * k); y1 = pos 0; x2 = pos (10 * k + 20); y2 = pos 10 }

abbrev overlap_limit : Ratio
overlap_limit = record { num = 1; den = 4 }

nms_run : nms boxes (2 ∷ 1 ∷ 0 ∷ []) overlap_limit ≡ some (0 ∷ 2 ∷ [])
unfolding nms nms_loop iou_within ◌-ℤ◌ ◌+ℤ◌ ◌*ℤ◌
nms_run = refl

nms-greedy_example :
    nms boxes (2 ∷ 1 ∷ 0 ∷ []) overlap_limit
    ≡ some (greedy (apart_by boxes overlap_limit) [] (reverse (2 ∷ 1 ∷ 0 ∷ [])))
nms-greedy_example = nms-greedy boxes (2 ∷ 1 ∷ 0 ∷ []) overlap_limit

abbrev picture : Image
picture = record { height = 480; width = 640; pixel = λ y x. 7 }

abbrev resize : Resize
resize image height width y x = 7

-- confidences in hundredths
abbrev detector : OnnxDetector
detector = record {
  one = 100;
  names = (0, codes "fire") ∷ (1, codes "smoke") ∷ [];
  confidence_floor = 15;
  iou = record { num = 45; den = 100 };
  end2end = none;
}

-- a row of ten ones in each column
abbrev output : Matrix
output = record { rows = 2; columns = 6; is_finite = λ i j. true; cell = λ i j. pos 1000 }

abbrev transform : Transform
transform = record {
  scale = record { num = 1; den = 2 };
  pad_x = 0;
  pad_y = 40;
  height = 480;
  width = 640;
}

-- the same with a class id that is no number
abbrev broken_output : Matrix
broken_output = record output { is_finite = λ i j. not (j == 5) }

decode_end2end-Yields_example :
    (has_broken_class detector broken_output ≡ false
      → Yields 100 15 (decode_end2end detector broken_output transform))
    × (has_broken_class detector broken_output ≡ true
        → decode_end2end detector broken_output transform ≡ none)
decode_end2end-Yields_example = decode_end2end-Yields detector broken_output transform (omega arith)

broken_raises : decode_end2end detector broken_output transform ≡ none
unfolding decode_end2end each
broken_raises = refl

abbrev numpy : Numpy
numpy = record { is_close = λ a b. true; argsort = λ scores. below (length scores) }

numpy-IsArgsort : IsArgsort numpy
numpy-IsArgsort = record { indices = λ scores. below-All (length scores) }

decode_raw-Yields_example : Yields 100 15 (decode_raw numpy detector output transform)
decode_raw-Yields_example =
    decode_raw-Yields numpy detector output transform numpy-IsArgsort
      λ i inside. (omega arith, omega arith)

canonical_label_run : canonical_label (codes " Active-Flames") ≡ some Label.fire
unfolding canonical_label first_label text_eq lower
canonical_label_run = refl

canonical_label-by_words_example :
    canonical_label (codes "person") ≡ by_words (key_of (codes "person"))
canonical_label-by_words_example = canonical_label-by_words (codes "person")

-- a corner of three cells, and one that only touches it at a corner
abbrev corner : ℕ → ℕ → Bool
corner r c = leb (r + c) 1 || (r == 2) && (c == 2)

flood-IsComponent_example :
    IsComponent corner 3 3 (0, 0) [] (flood corner 3 3 10 ((0, 0) ∷ [], (0, 0) ∷ []) [])
flood-IsComponent_example = flood-IsComponent corner 3 3 (0, 0) []

-- a red patch in the dark
abbrev patch : Picture
patch = record {
  ndim = 3;
  height = 3;
  width = 4;
  channels = 3;
  red = λ r c. if ltb c 2 then 250 else 10;
  green = λ r c. 60;
  blue = λ r c. 20;
}

patch_is_fire :
    predict_one 1000 stub_detector patch
    ≡ some (
        record {
          label = Label.fire;
          confidence = 815;
          box = record { x1 = 0; y1 = 0; x2 = 500; y2 = 1000 };
        }
        ∷ [])
unfolding predict_one
patch_is_fire = refl

predict_one-Answers_example : AnswersAtMost 1000 4 (predict_one 1000 stub_detector patch)
predict_one-Answers_example =
    predict_one-Answers 1000 stub_detector patch (omega arith) (omega arith)
