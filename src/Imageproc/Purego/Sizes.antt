-- ===== src/Imageproc/Purego/Sizes.antt =====
-- The size and the format of what the pure-Go backend encodes.
use image_forge.Imageproc.Purego.Scaling.{
  Documented, stage-ok, HasSize, resized-HasSize, watermark-HasSize, convert_format-encodes,
}
use image_forge.Imageproc.Bounds.{target_size-pos}
use image_forge.Imageproc.Size.{target_size}
use image_forge.Prelude.{
  ◌≡◌, refl, sym, ap, ◌∙◌, ◌⊎◌, inl, inr, Bool, true, ◌||◌, Option, some, arith, Text, codes,
  if◌then◌else◌, Bool-cases, Option-cases, ℤ,
}
use image_forge.Errors.{Error, ok, Result-cases}
use image_forge.Ports.{Bytes}
use image_forge.Domain.Spec.{jpeg, png, format_text, valid_format, TransformationSpec, validate}
use image_forge.Imageproc.Pipeline.{
  Backend, stage, is_derived, encode, mark, scale, clean, process, process-IsUsable,
}
use image_forge.Imageproc.Purego.{Library, open_image, resize, watermark, convert_format, backend}

module _ {P : Type 0} (lib : Library P) (d : Documented lib) where
  module _ {W : Type 0} (ctx_err : W → Option Error) (text : Text) (spec : TransformationSpec) where
    abbrev b : Backend W P
    b = backend lib ctx_err

    abbrev Encodes : P → Bytes → Type 0
    Encodes img out = convert_format lib (format_text spec.output) spec.quality img ≡ ok out

    encode-ok : (img : P) (w : W) (out : Bytes) → (encode b spec img w).1 ≡ ok out → Encodes img out
    unfolding backend
    encode-ok img w out h = elim (Option-cases (ctx_err w)) [
      | inr (e, q) ↦ absurd (ground arith)
      | inl q ↦
          elim (Result-cases (convert_format lib (format_text spec.output) spec.quality img)) [
            | inl (a, r) ↦ ground arith
            | inr (e, r) ↦ absurd (ground arith)
          ]
    ]

    mark-ok :
        (img : P) (w : W) (out : Bytes)
        → (mark b text spec img w).1 ≡ ok out
        → (img' : P) × HasSize lib d img' (lib.width img) (lib.height img) × Encodes img' out
    unfolding backend
    mark-ok img w out h = elim (Bool-cases spec.watermark) [
      | inl t ↦
          let (a, q, r) =
            stage-ok (codes "watermark") (w, watermark lib text img) (encode b spec) out
              (ground arith) in
          (a, watermark-HasSize lib d text img a q, encode-ok a w out r)
      | inr f ↦ (img, (refl, refl), encode-ok img w out (ground arith))
    ]

    keep : Bool
    keep = is_derived spec.width || is_derived spec.height

    resize-HasSize :
        (src img : P)
        → resize lib spec.width spec.height keep src ≡ ok img
        → (w : ℤ) × (h : ℤ) × (target_size
              (lib.width src)
              (lib.height src)
              spec.width
              spec.height
              keep
            ≡ ok (w, h))
          × HasSize lib d img w h
    unfolding resize
    resize-HasSize src img h =
        resized-HasSize lib d src img
          (target_size (lib.width src) (lib.height src) spec.width spec.height keep)
          (λ w h e. target_size-pos (lib.width src) (lib.height src) spec.width spec.height keep e)
          h

    scale-ok :
        (src : P) (w : W) (out : Bytes)
        → (scale b text spec src w).1 ≡ ok out
        → (img : P) × (tw : ℤ) × (th : ℤ) × (target_size
              (lib.width src)
              (lib.height src)
              spec.width
              spec.height
              keep
            ≡ ok (tw, th))
          × HasSize lib d img tw th
          × Encodes img out
    unfolding backend keep
    scale-ok src w out h =
        let (a, q, r) =
          stage-ok (codes "resize") (w, resize lib spec.width spec.height keep src)
            (mark b text spec) out h in
        let (tw, th, t, size) = resize-HasSize src a q in
        let (img, size', e) = mark-ok a w out r in
        (img, tw, th, t, (size'.0 ∙ size.0, size'.1 ∙ size.1), e)

    clean-ok :
        (src : P) (w : W) (out : Bytes)
        → (clean b text spec src w).1 ≡ ok out
        → (scale b text spec src w).1 ≡ ok out
    unfolding backend
    clean-ok src w out h = elim (Bool-cases spec.strip_metadata) [
      | inl t ↦
          ap
            (λ c.
              (if c
                then stage (codes "strip metadata") (w, ok src) (scale b text spec)
                else scale b text spec src w).1)
            (sym t)
          ∙ h
      | inr f ↦
          ap
            (λ c.
              (if c
                then stage (codes "strip metadata") (w, ok src) (scale b text spec)
                else scale b text spec src w).1)
            (sym f)
          ∙ h
    ]

    process-opens :
        (input out : Bytes) (w : W)
        → (process b text (some input) spec w).1 ≡ ok out
        → (stage (codes "open source") (w, open_image lib input) (clean b text spec)).1 ≡ ok out
    unfolding process backend
    process-opens input out w h = elim (Option-cases (validate spec)) [
      | inr (e, v) ↦ absurd (ground arith)
      | inl v ↦ elim (Option-cases (ctx_err w)) [
        | inr (e, c) ↦ absurd (ground arith)
        | inl c ↦ ground arith
      ]
    ]

    -- When `Process` on the pure-Go backend gives a result, it is the encoding, as JPEG or PNG, of an
    -- image whose size is exactly the target size that the specification gives for the decoded
    -- source, with or without a watermark.
    pub process-sized :
        (input out : Bytes) (w : W)
        → (process b text (some input) spec w).1 ≡ ok out
        → (src : P) × (img : P) × (tw : ℤ) × (th : ℤ) × (open_image lib input ≡ ok src)
          × (target_size
                (lib.width src)
                (lib.height src)
                spec.width
                spec.height
                (is_derived spec.width || is_derived spec.height)
              ≡ ok (tw, th))
          × (lib.width img ≡ tw)
          × (lib.height img ≡ th)
          × (convert_format lib (format_text spec.output) spec.quality img ≡ ok out)
          × ((spec.output ≡ jpeg) ⊎ (spec.output ≡ png))
    unfolding keep valid_format
    process-sized input out w h =
        let u = (process-IsUsable b text (some input) spec w h).0.supported in
        let known : valid_format spec.output ≡ true = ground arith in
        let (src, o, c) =
          stage-ok (codes "open source") (w, open_image lib input) (clean b text spec) out
            (process-opens input out w h) in
        let (img, tw, th, t, size, e) = scale-ok src w out (clean-ok src w out c) in
        (
          src,
          img,
          tw,
          th,
          o,
          t,
          size.0,
          size.1,
          e,
          convert_format-encodes lib d spec.output spec.quality img out known e,
        )
