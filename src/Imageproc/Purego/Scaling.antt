-- ===== src/Imageproc/Purego/Scaling.antt =====
-- What the calls of the pure-Go backend make of the size of an image.
use image_forge.Imageproc.Size.{add, watermark_box}
use image_forge.Prelude.{
  ◌≡◌, refl, sym, ap, ◌∙◌, ◌⊎◌, inl, inr, true, ◌&&◌, [], arith, Text, text_eq, Bool-cases, ℤ, pos,
  ◌≤ℤ◌,
}
use image_forge.Errors.{Result, ok, err}
use image_forge.Ports.{Bytes}
use image_forge.Domain.Spec.{
  Format, jpeg, png, webp, avif, unsupported, format, format_text, valid_format,
}
use image_forge.Imageproc.Pipeline.{stage}
use image_forge.Imageproc.Purego.{
  Library, scale_image, eq_ℤ, resized, fits, watermark, convert_format,
}

-- What the image libraries document: a new image has the size asked for, scaling over an image and
-- drawing keep its size.
pub record Documented {P : Type 0} (lib : Library P) : Type 0 where
  pub creates :
      (w h : ℤ)
      → pos 1 ≤ℤ w
      → pos 1 ≤ℤ h
      → (lib.width (lib.new_rgba w h) ≡ w) × (lib.height (lib.new_rgba w h) ≡ h)
  pub scales :
      (dst src : P)
      → (lib.width (lib.catmull_rom dst src) ≡ lib.width dst)
        × (lib.height (lib.catmull_rom dst src) ≡ lib.height dst)
  pub draws :
      (text : Text) (x y : ℤ) (img : P)
      → (lib.width (lib.draw_string text x y img) ≡ lib.width img)
        × (lib.height (lib.draw_string text x y img) ≡ lib.height img)

-- A stage that gives a result has passed.
pub stage-ok :
    {W A B : Type 0} (what : Text) (r : W × Result A) (rest : A → W → W × Result B) (b : B)
    → (stage what r rest).1 ≡ ok b
    → (a : A) × (r.1 ≡ ok a) × ((rest a r.0).1 ≡ ok b)
stage-ok what (w, ok a) rest b h = (a, refl, h)
stage-ok what (w, err e) rest b h = absurd (ground arith)

eq_ℤ-eq : (a b : ℤ) → eq_ℤ a b ≡ true → a ≡ b
eq_ℤ-eq a b h = ground arith

module _ {P : Type 0} (lib : Library P) (d : Documented lib) where
  -- An image has a size.
  abbrev pub HasSize : P → ℤ → ℤ → Type 0
  HasSize img w h = (lib.width img ≡ w) × (lib.height img ≡ h)

  scale_image-HasSize :
      (img : P) (w h : ℤ) → pos 1 ≤ℤ w → pos 1 ≤ℤ h → HasSize (scale_image lib img w h) w h
  unfolding scale_image
  scale_image-HasSize img w h a b =
      let (x, y) = d.scales (lib.new_rgba w h) img in
      let (u, v) = d.creates w h a b in (x ∙ u, y ∙ v)

  pub resized-HasSize :
      (img out : P) (r : Result (ℤ × ℤ))
      → ((w h : ℤ) → r ≡ ok (w, h) → (pos 1 ≤ℤ w) × (pos 1 ≤ℤ h))
      → resized lib img r ≡ ok out
      → (w : ℤ) × (h : ℤ) × (r ≡ ok (w, h)) × HasSize out w h
  unfolding resized
  resized-HasSize img out (err e) p h = absurd (ground arith)
  resized-HasSize img out (ok (w, h)) p q =
      let same = eq_ℤ w (lib.width img) && eq_ℤ h (lib.height img) in
      elim (Bool-cases same) [
        | inl t ↦
            let e : img ≡ out = ground arith in
            (
              w,
              h,
              refl,
              (
                ap lib.width (sym e) ∙ sym (eq_ℤ-eq w (lib.width img) (ground arith)),
                ap lib.height (sym e) ∙ sym (eq_ℤ-eq h (lib.height img) (ground arith)),
              ),
            )
        | inr f ↦
            let e : scale_image lib img w h ≡ out = ground arith in
            let (a, b) = p w h refl in
            let (x, y) = scale_image-HasSize img w h a b in
            (w, h, refl, (ap lib.width (sym e) ∙ x, ap lib.height (sym e) ∙ y))
      ]

  pub watermark-HasSize :
      (text : Text) (img out : P)
      → watermark lib text img ≡ ok out
      → HasSize out (lib.width img) (lib.height img)
  unfolding watermark
  watermark-HasSize text img out h =
      let box = watermark_box (lib.width img) (lib.height img) in
      elim (Bool-cases (text_eq text [])) [
        | inl t ↦ let e : img ≡ out = ground arith in (ap lib.width (sym e), ap lib.height (sym e))
        | inr f ↦ elim (Bool-cases (fits lib (lib.advance text) box.2 box.3 img)) [
          | inl t ↦
              let e : lib.draw_string text box.2 (add box.3 lib.descent) img ≡ out = ground arith in
              let (x, y) = d.draws text box.2 (add box.3 lib.descent) img in
              (ap lib.width (sym e) ∙ x, ap lib.height (sym e) ∙ y)
          | inr u ↦ absurd (ground arith)
        ]
      ]

  pub convert_format-encodes :
      (f : Format) (quality : ℤ) (img : P) (out : Bytes)
      → valid_format f ≡ true
      → convert_format lib (format_text f) quality img ≡ ok out
      → (f ≡ jpeg) ⊎ (f ≡ png)
  unfolding convert_format format format_text valid_format text_eq
  convert_format-encodes jpeg quality img out v h = inl refl
  convert_format-encodes png quality img out v h = inr refl
  convert_format-encodes webp quality img out v h = absurd (ground arith)
  convert_format-encodes avif quality img out v h = absurd (ground arith)
  convert_format-encodes (unsupported text) quality img out v h = absurd (ground arith)
