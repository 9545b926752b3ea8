-- ===== src/Imageproc/Purego.antt =====
-- internal/adapters/imageproc/purego.go, and the settings of imageproc.go: the pure-Go backend. What
-- image, image/jpeg, image/png, the basicfont face and x/image do with pixels is a parameter; `P` is
-- a decoded image. Sizes are 64-bit ints.
pub mod Scaling
pub mod Sizes
use image_forge.Prelude.{
  Bool, not, ◌&&◌, ◌||◌, Option, List, [], ◌∷◌, ◌++◌, Text, codes, text_eq, if◌then◌else◌, ℤ, pos,
  ltb_ℤ, leb_ℤ,
}
use image_forge.Errors.{
  unsupported_format, empty_source, Error, new, sentinel, wrap, Result, ok, err,
}
use image_forge.Ports.{Bytes}
use image_forge.Domain.Spec.{
  Format, jpeg, png, webp, avif, unsupported, format, format_text, valid_format, quote,
}
use image_forge.Imageproc.Size.{add, mul, size_text, target_size, thumbnail_size, watermark_box}
use image_forge.Imageproc.Pipeline.{Backend}

-- The settings of both backends.
pub record Config : Type 0 where
  pub watermark_text : Text
  pub font_name : Text

unfoldable pub with_watermark_text : Text → Config → Config
with_watermark_text text c = if not (text_eq text []) then record c { watermark_text = text } else c

unfoldable pub with_font : Text → Config → Config
with_font name c = if not (text_eq name []) then record c { font_name = name } else c

unfoldable pub apply_options : List (Config → Config) → Config → Config
apply_options [] c = c
apply_options (opt ∷ opts) c = apply_options opts (opt c)

unfoldable pub new_config : List (Config → Config) → Config
unfolding apply_options
new_config opts =
    apply_options opts (record { watermark_text = codes "ImageForge"; font_name = codes "sans 12" })

unfoldable pub normalize_format : Text → Result Format
normalize_format text =
    let f = format text in
    if not (valid_format f)
    then err (wrap [] (sentinel unsupported_format) (codes ": " ++ quote text))
    else ok f

pub record Library (P : Type 0) : Type 0 where
  pub decode : Bytes → Result P
  pub width : P → ℤ
  pub height : P → ℤ
  -- image.NewRGBA with a width and a height, and the scaling of the second image over the first
  pub new_rgba : ℤ → ℤ → P
  pub catmull_rom : P → P → P
  -- what a text needs in the 7x13 face, rounded up, and the height and descent of the face
  pub advance : Text → ℤ
  pub face_height : ℤ
  pub descent : ℤ
  -- the text drawn over the image, the margins from the right and from the bottom
  pub draw_string : Text → ℤ → ℤ → P → P
  pub encode_jpeg : ℤ → P → Result Bytes
  pub encode_png : P → Result Bytes

abbrev pub eq_ℤ : ℤ → ℤ → Bool
eq_ℤ a b = leb_ℤ a b && leb_ℤ b a

abbrev pub default_jpeg_quality : ℤ
default_jpeg_quality = pos 75

module _ {P : Type 0} (lib : Library P) where
  is_empty : P → Bool
  is_empty img = leb_ℤ (lib.width img) (pos 0) || leb_ℤ (lib.height img) (pos 0)

  opened : Result P → Result P
  unfolding is_empty
  opened (err e) = err (wrap (codes "decode: ") e [])
  opened (ok img) =
      if is_empty img then err (wrap (codes "decode: ") (sentinel empty_source) []) else ok img

  -- `Open`
  unfoldable pub open_image : Bytes → Result P
  unfolding opened
  open_image content = opened (lib.decode content)

  -- `scale`
  unfoldable pub scale_image : P → ℤ → ℤ → P
  scale_image src width height = lib.catmull_rom (lib.new_rgba width height) src

  pub resized : P → Result (ℤ × ℤ) → Result P
  unfolding scale_image
  resized img (err e) = err e
  resized img (ok (w, h)) =
      if eq_ℤ w (lib.width img) && eq_ℤ h (lib.height img) then ok img else ok (scale_image img w h)

  -- `Resize`
  unfoldable pub resize : ℤ → ℤ → Bool → P → Result P
  unfolding resized
  resize width height keep_aspect img =
      resized img (target_size (lib.width img) (lib.height img) width height keep_aspect)

  -- `GenerateThumbnail`
  unfoldable pub generate_thumbnail : ℤ → P → Result P
  unfolding resized
  generate_thumbnail max_dim img =
      resized img (thumbnail_size (lib.width img) (lib.height img) max_dim)

  -- `StripMetadata`
  strip_metadata : P → Result P
  strip_metadata img = ok img

  -- Whether a text of this width and the face's height fits with its margins.
  unfoldable pub fits : ℤ → ℤ → ℤ → P → Bool
  fits text_w margin_x margin_y img = not (
      ltb_ℤ (lib.width img) (add text_w (mul (pos 2) margin_x))
      || ltb_ℤ (lib.height img) (add lib.face_height (mul (pos 2) margin_y)))

  -- `Watermark`
  unfoldable pub watermark : Text → P → Result P
  unfolding fits
  watermark text img =
      let (_, _, margin_x, margin_y) = watermark_box (lib.width img) (lib.height img) in
      let text_w = lib.advance text in
      if text_eq text []
      then ok img
      else if fits text_w margin_x margin_y img
      then ok (lib.draw_string text margin_x (add margin_y lib.descent) img)
      else err (
          new (
            codes "watermark "
            ++ quote text
            ++ codes " needs "
            ++ size_text text_w lib.face_height
            ++ codes " pixels, image is "
            ++ size_text (lib.width img) (lib.height img)))

  encoded : Format → Result Bytes → Result Bytes
  encoded f (ok out) = ok out
  encoded f (err e) = err (wrap (codes "encode " ++ format_text f ++ codes ": ") e [])

  no_encoder : Format → Result Bytes
  no_encoder f = err (
      wrap [] (sentinel unsupported_format)
        (codes ": " ++ format_text f ++ codes " cannot be encoded by the purego backend"))

  converted : Result Format → ℤ → P → Result Bytes
  unfolding encoded no_encoder
  converted (err e) quality img = err e
  converted (ok jpeg) quality img =
      encoded jpeg
        (lib.encode_jpeg (if leb_ℤ quality (pos 0) then default_jpeg_quality else quality) img)
  converted (ok png) quality img = encoded png (lib.encode_png img)
  converted (ok webp) quality img = no_encoder webp
  converted (ok avif) quality img = no_encoder avif
  converted (ok (unsupported text)) quality img =
      err (wrap [] (sentinel unsupported_format) (codes ": " ++ quote text))

  -- `ConvertFormat`
  unfoldable pub convert_format : Text → ℤ → P → Result Bytes
  unfolding converted normalize_format
  convert_format text quality img = converted (normalize_format text) quality img

  -- The backend of the pipeline, which changes nothing of the world.
  unfoldable pub backend : {W : Type 0} → (W → Option Error) → Backend W P
  unfolding open_image resize strip_metadata watermark convert_format
  backend ctx_err = record {
    ctx_err = ctx_err;
    open_image = λ content w. (w, open_image content);
    strip = λ img w. (w, strip_metadata img);
    resize = λ width height keep img w. (w, resize width height keep img);
    draw_watermark = λ text img w. (w, watermark text img);
    convert = λ text quality img w. (w, convert_format text quality img);
  }
