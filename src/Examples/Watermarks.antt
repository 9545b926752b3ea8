-- ===== src/Examples/Watermarks.antt =====
-- The label of a watermark at a concrete size.
use image_forge.Prelude.{ℕ, ◌+◌, ◌≤◌, ◌<◌, ◌≡◌, [], arith, codes, ◌==◌, ℤ, pos}
use image_forge.Errors.{ok}
use image_forge.Imageproc.Purego.{Config}
use image_forge.Imageproc.Vips.{Govips, label_for}
use image_forge.Imageproc.Vips.Labels.{label_for-inside}

-- A govips that keeps the sizes, and labels any image.
abbrev govips : Govips (ℤ × ℤ) ℕ
govips = record {
  new_image_from_reader = λ content. ok (pos 4000, pos 3000);
  width = λ img. img.0;
  height = λ img. img.1;
  quotient = λ a b. 0;
  eq_float = λ a b. a == b;
  resize = λ scale img. ok img;
  resize_with_v_scale = λ h_scale v_scale img. ok img;
  thumbnail = λ w h img. ok (w, h);
  remove_metadata = λ img. ok img;
  remove_icc_profile = λ img. ok img;
  label = λ params img. ok img;
  export = λ f quality img. ok [];
}

abbrev settings : Config
settings = record { watermark_text = codes "ImageForge"; font_name = codes "sans 12" }

label_for-inside_example :
    (x y bw bh : ℕ) × (label_for govips settings (codes "a") (pos 3) (pos 2) ≡ record {
      text = codes "a";
      font = codes "sans 12";
      width = pos bw;
      height = pos bh;
      offset_x = pos x;
      offset_y = pos y;
    })
    × (1 ≤ bw)
    × (1 ≤ bh)
    × (x + bw < 3)
    × (y + bh < 2)
label_for-inside_example =
    label_for-inside govips settings (codes "a") 3 2 (omega arith) (omega arith) (omega arith)
      (omega arith)
