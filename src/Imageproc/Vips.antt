-- ===== src/Imageproc/Vips.antt =====
-- internal/adapters/imageproc/vips.go: the govips backend. govips is a parameter: `P` is an image
-- that it holds and `F` are its scales, 64-bit floats. An operation changes an image in place; an
-- image is not used again after a failure.
pub mod Labels
use image_forge.Imageproc.Purego.{Config, new_config, normalize_format, eq_ℤ}
use image_forge.Prelude.{
  ◌+◌, Bool, ◌&&◌, Option, none, some, List, [], ◌++◌, Text, codes, text_eq, if◌then◌else◌, ℤ, pos,
  pos_part, neg_part, sub_ℕ, ltb_ℤ,
}
use image_forge.Errors.{unsupported_format, Error, sentinel, wrap, Result, ok, err}
use image_forge.Ports.{Bytes}
use image_forge.Domain.Spec.{Format, jpeg, png, webp, avif, unsupported, quote}
use image_forge.Imageproc.Size.{int64, size_text, target_size, thumbnail_size, watermark_box}
use image_forge.Imageproc.Pipeline.{Backend}

-- `LabelParams`, without the opacity, the color and the alignment, which are constant.
pub record Label : Type 0 where
  pub text : Text
  pub font : Text
  pub width : ℤ
  pub height : ℤ
  pub offset_x : ℤ
  pub offset_y : ℤ

pub record Govips (P F : Type 0) : Type 0 where
  pub new_image_from_reader : Bytes → Result P
  pub width : P → ℤ
  pub height : P → ℤ
  pub quotient : ℤ → ℤ → F
  pub eq_float : F → F → Bool
  pub resize : F → P → Result P
  pub resize_with_v_scale : F → F → P → Result P
  pub thumbnail : ℤ → ℤ → P → Result P
  pub remove_metadata : P → Result P
  pub remove_icc_profile : P → Result P
  pub label : Label → P → Result P
  -- by the format, with a quality, or with the encoder's own
  pub export : Format → Option ℤ → P → Result Bytes

-- `New`, after what `Startup` gave, the first time.
unfoldable pub new_processor : Option Error → List (Config → Config) → Result Config
new_processor (some e) opts = err (wrap (codes "imageproc: start libvips: ") e [])
new_processor none opts = ok (new_config opts)

-- A difference of 64-bit ints
unfoldable pub minus : ℤ → ℤ → ℤ
minus a b = int64 (sub_ℕ (pos_part a + neg_part b) (neg_part a + pos_part b))

-- `Errorf("<what>: %w", err)` of an error, or the value
failing {ℓ} : {A : Type ℓ} → Text → Result A → Result A
failing what (ok a) = ok a
failing what (err e) = err (wrap (what ++ codes ": ") e [])

module _ {P F : Type 0} (vips : Govips P F) (cfg : Config) where
  -- `Open`
  unfoldable pub open_image : Bytes → Result P
  unfolding failing
  open_image content = failing (codes "decode") (vips.new_image_from_reader content)

  scaled : P → F → F → ℤ → ℤ → Result P
  unfolding failing
  scaled img h_scale v_scale w h = failing (codes "resize to " ++ size_text w h) (
      if vips.eq_float h_scale v_scale
      then vips.resize h_scale img
      else vips.resize_with_v_scale h_scale v_scale img)

  resized : P → Result (ℤ × ℤ) → Result P
  unfolding scaled
  resized img (err e) = err e
  resized img (ok (w, h)) =
      if eq_ℤ w (vips.width img) && eq_ℤ h (vips.height img)
      then ok img
      else scaled img (vips.quotient w (vips.width img)) (vips.quotient h (vips.height img)) w h

  -- `Resize`
  unfoldable pub resize : ℤ → ℤ → Bool → P → Result P
  unfolding resized
  resize width height keep_aspect img =
      resized img (target_size (vips.width img) (vips.height img) width height keep_aspect)

  thumbnailed : P → Result (ℤ × ℤ) → Result P
  unfolding failing
  thumbnailed img (err e) = err e
  thumbnailed img (ok (w, h)) =
      if eq_ℤ w (vips.width img) && eq_ℤ h (vips.height img)
      then ok img
      else failing (codes "thumbnail to " ++ size_text w h) (vips.thumbnail w h img)

  -- `GenerateThumbnail`
  unfoldable pub generate_thumbnail : ℤ → P → Result P
  unfolding thumbnailed
  generate_thumbnail max_dim img =
      thumbnailed img (thumbnail_size (vips.width img) (vips.height img) max_dim)

  without_profile : Result P → Result P
  unfolding failing
  without_profile (err e) = err e
  without_profile (ok img) = failing (codes "remove icc profile") (vips.remove_icc_profile img)

  -- `StripMetadata`
  unfoldable pub strip_metadata : P → Result P
  unfolding without_profile failing
  strip_metadata img =
      without_profile (failing (codes "remove metadata") (vips.remove_metadata img))

  -- The label of a watermark on an image of this size.
  unfoldable pub label_for : Text → ℤ → ℤ → Label
  label_for text w h =
      let (box_w, box_h, margin_x, margin_y) = watermark_box w h in
      record {
        text = text;
        font = cfg.font_name;
        width = box_w;
        height = box_h;
        offset_x = minus (minus w box_w) margin_x;
        offset_y = minus (minus h box_h) margin_y;
      }

  -- `Watermark`
  unfoldable pub watermark : Text → P → Result P
  unfolding label_for failing
  watermark text img =
      if text_eq text []
      then ok img
      else failing (codes "label " ++ quote text)
          (vips.label (label_for text (vips.width img) (vips.height img)) img)

  -- The quality that is set in the parameters of a lossy format.
  set_quality : ℤ → Option ℤ
  set_quality quality = if ltb_ℤ (pos 0) quality then some quality else none

  exported : Text → Result Format → ℤ → P → Result Bytes
  unfolding failing set_quality
  exported text (err e) quality img = err e
  exported text (ok jpeg) quality img =
      failing (codes "export jpeg") (vips.export jpeg (set_quality quality) img)
  exported text (ok png) quality img = failing (codes "export png") (vips.export png none img)
  exported text (ok webp) quality img =
      failing (codes "export webp") (vips.export webp (set_quality quality) img)
  exported text (ok avif) quality img =
      failing (codes "export avif") (vips.export avif (set_quality quality) img)
  exported text (ok (unsupported other)) quality img =
      err (wrap [] (sentinel unsupported_format) (codes ": " ++ quote text))

  -- `ConvertFormat`
  unfoldable pub convert_format : Text → ℤ → P → Result Bytes
  unfolding exported
  convert_format text quality img = exported text (normalize_format text) quality img

  -- The backend of the pipeline.
  unfoldable pub backend : {W : Type 0} → (W → Option Error) → Backend W P
  unfolding open_image resize strip_metadata watermark convert_format
  backend ctx_err = record {
    ctx_err = ctx_err;
    open_image = λ content w. (w, open_image content);
    strip = λ img w. (w, strip_metadata img);
    resize = λ width height keep img w. (w, resize width height keep img);
    draw_watermark = λ text img w. (w, watermark text img);
    convert = λ text quality img w. (w, convert_format text quality img);
  }
