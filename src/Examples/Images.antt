-- ===== src/Examples/Images.antt =====
-- Sizes, specifications and the pipeline at concrete inputs.
use image_forge.Imageproc.Purego.{Library, open_image, convert_format, backend}
use image_forge.Imageproc.Purego.Sizes.{process-sized}
use image_forge.Prelude.{
  ◌≡◌, refl, ◌↔◌, ◌⊎◌, true, false, ◌||◌, Option, none, [], ◌∷◌, ◌++◌, codes, text_eq, ℤ, pos,
  negsuc,
}
use image_forge.Errors.{invalid_dimensions, invalid_format, invalid_quality, Error, join_all, ok}
use image_forge.Domain.Spec.{
  jpeg, png, webp, format, format_text, valid_format, lossy, TransformationSpec, dimension_errors,
  format_errors, quality_errors, validate,
}
use image_forge.Domain.Validation.{
  IsUsable, DimensionsUsable, FormatUsable, QualityUsable, reports, validate-IsUsable,
  validate-reports,
}
use image_forge.Imageproc.Size.{add, mul, at_least_one, scale_dimension, target_size, watermark_box}
use image_forge.Imageproc.Pipeline.{Backend, is_derived, process}
use image_forge.Ports.{Bytes}

-- 800 pixels wide, at quality 80
abbrev web_spec : TransformationSpec
web_spec = record {
  width = pos 800;
  height = pos 0;
  output = webp;
  quality = pos 80;
  watermark = true;
  strip_metadata = true;
}

-- A lossless format with a quality, and a negative width
abbrev broken_spec : TransformationSpec
broken_spec = record web_spec { width = negsuc 4; output = png }

validate-IsUsable_example : (validate web_spec ≡ none) ↔ IsUsable web_spec
validate-IsUsable_example = validate-IsUsable web_spec

validate-reports_example :
    (reports broken_spec invalid_dimensions ≡ false ↔ DimensionsUsable broken_spec)
    × (reports broken_spec invalid_format ≡ false ↔ FormatUsable broken_spec)
    × (reports broken_spec invalid_quality ≡ false ↔ QualityUsable broken_spec)
validate-reports_example = validate-reports broken_spec

fitted : target_size (pos 4000) (pos 3000) (pos 800) (pos 800) true ≡ ok (pos 800, pos 600)
unfolding target_size scale_dimension at_least_one mul add
fitted = refl

-- A backend whose images are their bytes and whose calls all succeed
abbrev plain_backend : Backend (Option Error) Bytes
plain_backend = record {
  ctx_err = λ w. w;
  open_image = λ src w. (w, ok src);
  strip = λ img w. (w, ok img);
  resize = λ width height keep img w. (w, ok img);
  draw_watermark = λ text img w. (w, ok (img ++ text));
  convert = λ name quality img w. (w, ok (name ++ img));
}

-- A library whose images are their sizes
abbrev sizes : Library (ℤ × ℤ)
sizes = record {
  decode = λ content. ok (pos 4000, pos 3000);
  width = λ img. img.0;
  height = λ img. img.1;
  new_rgba = λ w h. (w, h);
  catmull_rom = λ dst src. dst;
  advance = λ text. pos 70;
  face_height = pos 13;
  descent = pos 2;
  draw_string = λ text x y img. img;
  encode_jpeg = λ quality img. ok (1 ∷ 2 ∷ []);
  encode_png = λ img. ok (3 ∷ []);
}

abbrev jpeg_spec : TransformationSpec
jpeg_spec = record web_spec { output = jpeg }

process-sized_example :
    (src : ℤ × ℤ) × (img : ℤ × ℤ) × (tw : ℤ) × (th : ℤ) × (open_image sizes (7 ∷ []) ≡ ok src)
    × (target_size src.0 src.1 (pos 800) (pos 0) (is_derived (pos 800) || is_derived (pos 0))
        ≡ ok (tw, th))
    × (img.0 ≡ tw)
    × (img.1 ≡ th)
    × (convert_format sizes (codes "jpeg") (pos 80) img ≡ ok (1 ∷ 2 ∷ []))
    × ((jpeg ≡ jpeg) ⊎ (jpeg ≡ png))
unfolding process validate backend join_all dimension_errors format_errors valid_format
    quality_errors lossy target_size at_least_one text_eq add mul watermark_box scale_dimension
    format format_text
process-sized_example =
    process-sized sizes
      (record {
        creates = λ w h a b. (refl, refl);
        scales = λ dst src. (refl, refl);
        draws = λ text x y img. (refl, refl);
      })
      (λ w. w) (codes "ImageForge") jpeg_spec (7 ∷ []) (1 ∷ 2 ∷ []) none refl
