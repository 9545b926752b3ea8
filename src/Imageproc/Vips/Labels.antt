-- ===== src/Imageproc/Vips/Labels.antt =====
-- Where the label of a watermark stands.
use image_forge.Prelude.{ℕ, ◌+◌, ◌-◌, ◌/◌, ◌^◌, ◌≤◌, ◌<◌, max, ◌≡◌, refl, arith, Text, pos}
use image_forge.Imageproc.Size.{at_least_one, watermark_box}
use image_forge.Imageproc.Purego.{Config}
use image_forge.Imageproc.Vips.{Govips, minus, label_for}

at_least_one-max : (n : ℕ) → at_least_one (pos n) ≡ pos (max 1 n)
unfolding at_least_one
at_least_one-max n = ground arith

minus-small : (a b : ℕ) → b ≤ a → a < 2 ^ 63 → minus (pos a) (pos b) ≡ pos (a - b)
unfolding minus
minus-small a b h k = ground arith

-- What is left of a side after the label and its margin.
side : ℕ → ℕ → ℕ → ℕ
side n parts of = n - max 1 (n / parts) - max 1 (n / of)

side_lem :
    (n parts of : ℕ)
    → max 1 (n / parts) + max 1 (n / of) ≤ n
    → n < 2 ^ 31
    → minus (minus (pos n) (pos (max 1 (n / parts)))) (pos (max 1 (n / of))) ≡ pos (side n parts of)
unfolding side
side_lem n parts of h k =
    rw (minus-small n (max 1 (n / parts)) (omega arith) (omega arith))
      (minus-small (n - max 1 (n / parts)) (max 1 (n / of)) (omega arith) (omega arith))

module _ {P F : Type 0} (vips : Govips P F) (cfg : Config) where
  -- On an image of at least 2 x 2 pixels, with sides below 2 ^ 31, the label of a watermark is at
  -- least one pixel large and stands inside the image, a pixel or more away from its right and its
  -- bottom edge.
  pub label_for-inside :
      (text : Text) (w h : ℕ)
      → 2 ≤ w
      → 2 ≤ h
      → w < 2 ^ 31
      → h < 2 ^ 31
      → (x y bw bh : ℕ) × (label_for vips cfg text (pos w) (pos h) ≡ record {
        text = text;
        font = cfg.font_name;
        width = pos bw;
        height = pos bh;
        offset_x = pos x;
        offset_y = pos y;
      })
        × (1 ≤ bw)
        × (1 ≤ bh)
        × (x + bw < w)
        × (y + bh < h)
  unfolding label_for watermark_box side
  label_for-inside text w h a b c d = (
    side w 2 40,
    side h 12 40,
    max 1 (w / 2),
    max 1 (h / 12),
    rw
        (
          at_least_one-max (w / 2),
          at_least_one-max (h / 12),
          at_least_one-max (w / 40),
          at_least_one-max (h / 40),
        )
        (rw (side_lem w 2 40 (omega arith) c, side_lem h 12 40 (omega arith) d) refl),
    omega arith,
    omega arith,
    omega arith,
    omega arith,
  )
