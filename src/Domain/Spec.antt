-- ===== src/Domain/Spec.antt =====
-- internal/domain/transformation.go: output formats and the specification. `Format` is a string
-- type there: `unsupported` holds a string that is none of the four constants.
use image_forge.Prelude.{
  zero, Bool, true, false, not, ◌&&◌, ◌||◌, Option, List, [], ◌∷◌, ◌++◌, Text, codes, text_eq,
  decimal_int, if◌then◌else◌, ℤ, pos, ltb_ℤ,
}
use image_forge.Errors.{
  invalid_dimensions, invalid_format, invalid_quality, Error, sentinel, wrap, join_all,
}

-- 10000 pixels
abbrev pub max_dimension : ℤ
max_dimension = pos 10000

pub data Format : Type 0 where
  jpeg png webp avif : Format
  unsupported : Text → Format

-- `domain.Format(s)`
unfoldable pub format : Text → Format
format s =
    if text_eq s (codes "jpeg")
    then jpeg
    else if text_eq s (codes "png")
    then png
    else if text_eq s (codes "webp")
    then webp
    else if text_eq s (codes "avif")
    then avif
    else unsupported s

unfoldable pub format_text : Format → Text
format_text jpeg = codes "jpeg"
format_text png = codes "png"
format_text webp = codes "webp"
format_text avif = codes "avif"
format_text (unsupported s) = s

unfoldable pub valid_format : Format → Bool
valid_format jpeg = true
valid_format png = true
valid_format webp = true
valid_format avif = true
valid_format (unsupported s) = false

-- The file extension, empty for an unsupported format.
unfoldable pub ext : Format → Text
ext jpeg = codes "jpg"
ext png = codes "png"
ext webp = codes "webp"
ext avif = codes "avif"
ext (unsupported s) = []

unfoldable pub lossy : Format → Bool
lossy jpeg = true
lossy webp = true
lossy avif = true
lossy _ = false

pub record TransformationSpec : Type 0 where
  pub width : ℤ
  pub height : ℤ
  pub output : Format
  pub quality : ℤ
  pub watermark : Bool
  pub strip_metadata : Bool

-- Go's `%q` on printable ASCII text without quotes and backslashes; `quote` stands for it.
abbrev pub quote : Text → Text
quote s = codes "\"" ++ s ++ codes "\""

abbrev is_zero : ℤ → Bool
is_zero (pos zero) = true
is_zero _ = false

unfoldable pub dimension_errors : TransformationSpec → List Error
dimension_errors s =
    if ltb_ℤ s.width (pos 0) || ltb_ℤ s.height (pos 0)
    then wrap [] (sentinel invalid_dimensions) (
        codes ": width "
        ++ decimal_int s.width
        ++ codes " and height "
        ++ decimal_int s.height
        ++ codes " must not be negative")
      ∷ []
    else if is_zero s.width && is_zero s.height
    then wrap [] (sentinel invalid_dimensions)
        (codes ": at least one of width or height must be set")
      ∷ []
    else if ltb_ℤ max_dimension s.width || ltb_ℤ max_dimension s.height
    then wrap [] (sentinel invalid_dimensions) (
        codes ": width "
        ++ decimal_int s.width
        ++ codes " and height "
        ++ decimal_int s.height
        ++ codes " must not exceed 10000")
      ∷ []
    else []

unfoldable pub format_errors : TransformationSpec → List Error
format_errors s =
    if not (valid_format s.output)
    then wrap [] (sentinel invalid_format)
        (codes ": " ++ quote (format_text s.output) ++ codes " is not a supported output format")
      ∷ []
    else []

unfoldable pub quality_errors : TransformationSpec → List Error
quality_errors s =
    if ltb_ℤ s.quality (pos 0) || ltb_ℤ (pos 100) s.quality
    then wrap [] (sentinel invalid_quality)
        (codes ": " ++ decimal_int s.quality ++ codes " is outside the range 0-100")
      ∷ []
    else if not (is_zero s.quality) && valid_format s.output && not (lossy s.output)
    then wrap [] (sentinel invalid_quality)
        (codes ": format " ++ format_text s.output ++ codes " is lossless and accepts no quality")
      ∷ []
    else []

-- Every problem of the specification, joined; `none` where it is usable.
unfoldable pub validate : TransformationSpec → Option Error
validate s = join_all (dimension_errors s ++ format_errors s ++ quality_errors s)
