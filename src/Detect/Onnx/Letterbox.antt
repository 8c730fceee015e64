-- ===== src/Detect/Onnx/Letterbox.antt =====
-- firemex/detect/onnx_backend.py: `letterbox`, the resized picture on a square grey canvas. Pixels are
-- opaque numbers, and Pillow's resampling is a parameter.
use fireme_x.Base.{
  leb→le, ℕ, ◌+◌, ◌-◌, ◌*◌, ◌/◌, ◌≤◌, ◌<◌, ◌≡◌, max, ◌&&◌, ◌⊎◌, inl, inr, arith, leb, ltb,
  if◌then◌else◌, Bool-cases,
}
use fireme_x.Base.Ratio.{Ratio, round_div, round_div-le, round_div-mul}
use native.Mathlib.Nat.{mul-le-mul_right, le_of_mul-le-mul_left}

-- an HWC image: its shape and the pixel in each row and column
pub record Image : Type 0 where
  pub height : ℕ
  pub width : ℕ
  pub pixel : ℕ → ℕ → ℕ

pub record Letterbox : Type 0 where
  pub canvas : Image
  pub scale : Ratio
  pub pad_x : ℕ
  pub pad_y : ℕ

-- `min(size / height, size / width)`
unfoldable pub scale_of : ℕ → ℕ → ℕ → Ratio
scale_of height width size =
    if leb (size * width) (size * height)
    then record { num = size; den = height }
    else record { num = size; den = width }

-- `max(1, int(round(length * scale)))`
unfoldable pub resized_length : Ratio → ℕ → ℕ
resized_length scale length = max 1 (round_div (length * scale.num) scale.den)

-- the grey value of `np.full`
abbrev pub grey : ℕ
grey = 114

-- `canvas[pad_y : pad_y + new_h, pad_x : pad_x + new_w] = resized`
unfoldable pub paste : ℕ → ℕ → ℕ → Image → Image
paste size pad_x pad_y resized = record {
  height = size;
  width = size;
  pixel = λ y x.
      if leb pad_y y
        && ltb y (pad_y + resized.height)
        && leb pad_x x
        && ltb x (pad_x + resized.width)
      then resized.pixel (y - pad_y) (x - pad_x)
      else grey;
}

-- `Image.resize`, from a picture and the new height and width
abbrev pub Resize : Type 0
Resize = Image → ℕ → ℕ → ℕ → ℕ → ℕ

unfoldable pub letterbox : Resize → Image → ℕ → Letterbox
unfolding scale_of resized_length paste
letterbox resize image size =
    let scale = scale_of image.height image.width size in
    let new_h = resized_length scale image.height in
    let new_w = resized_length scale image.width in
    let resized : Image = record {
      height = new_h;
      width = new_w;
      pixel = resize image new_h new_w;
    } in
    let pad_y = (size - new_h) / 2 in
    let pad_x = (size - new_w) / 2 in
    record { canvas = paste size pad_x pad_y resized; scale = scale; pad_x = pad_x; pad_y = pad_y }

-- where the picture of a length of the image lies on a side of the canvas
pub record Fits (size pad length : ℕ) : Type 0 where
  pub visible : 1 ≤ length
  pub inside : pad + length ≤ size
  pub centred : pad ≤ size - (pad + length)
  pub even : size - (pad + length) ≤ pad + 1

-- a side that sets the scale fills the canvas
resized_length-full :
    (size side : ℕ)
    → 0 < side
    → 0 < size
    → resized_length (record { num = size; den = side }) side ≡ size
unfolding resized_length
resized_length-full size side h s = omega (arith, round_div-mul side size h)

resized_length-le :
    (size side other : ℕ)
    → 0 < side
    → 0 < size
    → other ≤ side
    → resized_length (record { num = size; den = side }) other ≤ size
unfolding resized_length
resized_length-le size side other h s le =
    omega (arith, round_div-le (other * size) side size h (mul-le-mul_right size le))

-- where a whole length of new pixels stands, with half of the rest before it
Fits-half : (size length : ℕ) → 1 ≤ length → length ≤ size → Fits size ((size - length) / 2) length
Fits-half size length low high = omega arith

-- the lengths of the resized picture
abbrev LongSide : Ratio → ℕ → ℕ → ℕ → Type 0
LongSide scale height width size =
    (resized_length scale height ≤ size)
    × (resized_length scale width ≤ size)
    × ((resized_length scale height ≡ size) ⊎ (resized_length scale width ≡ size))

scale_of-LongSide :
    (height width size : ℕ)
    → 0 < height
    → 0 < width
    → 0 < size
    → LongSide (scale_of height width size) height width size
unfolding scale_of
scale_of-LongSide height width size h w s = elim (Bool-cases (leb (size * width) (size * height))) [
  | inl tall ↦ rw tall (
    omega (arith, resized_length-full size height h s),
    resized_length-le size height width h s
        (le_of_mul-le-mul_left (leb→le (size * width) (size * height) tall) s),
    inl (resized_length-full size height h s),
  )
  | inr wide ↦
      let below : size * height ≤ size * width = ground arith in
      rw wide (
        resized_length-le size width height w s (le_of_mul-le-mul_left below s),
        omega (arith, resized_length-full size width w s),
        inr (resized_length-full size width w s),
      )
]

resized_length-ge : (scale : Ratio) (length : ℕ) → 1 ≤ resized_length scale length
unfolding resized_length
resized_length-ge scale length = omega arith

-- The resized picture lies on the canvas, in its middle to within a pixel, each side at least one
-- pixel long, and one of its sides as long as the canvas.
pub letterbox-Fits :
    (resize : Resize) (image : Image) (size : ℕ)
    → 0 < image.height
    → 0 < image.width
    → 0 < size
    → let l = letterbox resize image size in
      let new_h = resized_length l.scale image.height in
      let new_w = resized_length l.scale image.width in
      Fits size l.pad_y new_h × Fits size l.pad_x new_w × ((new_h ≡ size) ⊎ (new_w ≡ size))
unfolding letterbox
letterbox-Fits resize image size h w s =
    let scale = scale_of image.height image.width size in
    let long = scale_of-LongSide image.height image.width size h w s in
    (
      Fits-half size (resized_length scale image.height) (resized_length-ge scale image.height)
          long.0,
      Fits-half size (resized_length scale image.width) (resized_length-ge scale image.width)
          long.1,
      long.2,
    )
