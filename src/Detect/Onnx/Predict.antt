-- ===== src/Detect/Onnx/Predict.antt =====
-- firemex/detect/onnx_backend.py: what `OnnxDetector` takes from the model's metadata, and `predict`.
-- The network is a parameter: from the canvases of a batch to the outputs.
use fireme_x.Base.{ℕ, ◌≡◌, Bool, ◌||◌, Option, none, some, List, [], ◌∷◌, map, length}
use fireme_x.Base.Dict.{Dict}
use fireme_x.Accounts.Text.{Text, text_eq, lower, codes}
use fireme_x.Detect.Frames.{Detection}
use fireme_x.Detect.Labels.{strip}
use fireme_x.Detect.Onnx.Letterbox.{Image, Letterbox, Resize, letterbox}
use fireme_x.Detect.Onnx.Cells.{Output, OnnxDetector, Numpy, Transform}
use fireme_x.Detect.Onnx.Decode.{decode}

-- `_end2end_from_metadata`, from the metadata's entry
unfoldable pub end2end_of : Option Text → Option Bool
end2end_of none = none
end2end_of (some raw) =
    let word = lower (strip raw) in
    some (text_eq word (codes "true") || text_eq word (codes "1") || text_eq word (codes "yes"))

-- `class_names or self._names_from_metadata() or {0: "fire", 1: "smoke"}`
or_names : Option (Dict Text) → Dict Text → Dict Text
or_names (some (name ∷ names)) other = name ∷ names
or_names _ other = other

unfoldable pub names_of : Option (Dict Text) → Option (Dict Text) → Dict Text
unfolding or_names
names_of given embedded =
    or_names given (or_names embedded ((0, codes "fire") ∷ (1, codes "smoke") ∷ []))

-- `transforms.append(...)`
abbrev transform_of : Letterbox → Image → Transform
transform_of l image = record {
  scale = l.scale;
  pad_x = l.pad_x;
  pad_y = l.pad_y;
  height = image.height;
  width = image.width;
}

-- `self._decode(outputs[i], *transforms[i])` for each i below both lengths
decode_each :
    (Output → Transform → Option (List Detection))
    → List Output
    → List Transform
    → Option (List (List Detection))
decode_each one_of [] ts = some []
decode_each one_of (o ∷ os) [] = some []
decode_each one_of (o ∷ os) (t ∷ ts) =
    let rest = decode_each one_of os ts in
    elim (one_of o t) [
      | none ↦ none
      | some found ↦ elim rest [ none ↦ none | some more ↦ some (found ∷ more) ]
    ]

-- `predict`
unfoldable pub predict :
    Numpy
    → Resize
    → (List Image → List Output)
    → OnnxDetector
    → ℕ
    → List Image
    → Option (List (List Detection))
unfolding decode_each
predict np resize network d image_size [] = some []
predict np resize network d image_size (first ∷ others) =
    let images : List Image = first ∷ others in
    decode_each (decode np d)
      (network (map (λ image. (letterbox resize image image_size).canvas) images))
      (map (λ image. transform_of (letterbox resize image image_size) image) images)

-- as many results as there are outputs and images
abbrev pub Answers : ℕ → Option (List (List Detection)) → Type 0
Answers n none = Unit
Answers n (some results) = length results ≡ n
