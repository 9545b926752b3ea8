-- ===== src/Imageproc/Pipeline.antt =====
-- internal/adapters/imageproc/imageproc.go: `Processor.Process`. The image backend, which calls an
-- image library, is a parameter; so is the context, whose error may change with the world `W`.
use image_forge.Prelude.{
  zero, ◌≡◌, ◌≢◌, inl, inr, Bool, true, false, ◌||◌, Option, none, some, [], ◌++◌, arith, Text,
  codes, if◌then◌else◌, Option-cases, ℤ, pos,
}
use image_forge.Errors.{empty_source, Error, sentinel, wrap, Result, ok, err}
use image_forge.Ports.{Bytes}
use image_forge.Domain.Spec.{format_text, TransformationSpec, validate}
use image_forge.Domain.Validation.{IsUsable, validate-IsUsable}

-- An opened image: `I` is its state.
pub record Backend (W I : Type 0) : Type 0 where
  pub ctx_err : W → Option Error
  pub open_image : Bytes → W → W × Result I
  pub strip : I → W → W × Result I
  pub resize : ℤ → ℤ → Bool → I → W → W × Result I
  pub draw_watermark : Text → I → W → W × Result I
  pub convert : Text → ℤ → I → W → W × Result Bytes

-- A step of the pipeline, which wraps its error, then the rest.
abbrev pub stage : {W A B : Type 0} → Text → W × Result A → (A → W → W × Result B) → W × Result B
stage what (w, ok a) rest = rest a w
stage what (w, err e) rest = (w, err (wrap (codes "imageproc: " ++ what ++ codes ": ") e []))

abbrev pub is_derived : ℤ → Bool
is_derived (pos zero) = true
is_derived _ = false

module _ {W I : Type 0} (b : Backend W I) where
  abbrev pub encode : TransformationSpec → I → W → W × Result Bytes
  encode spec img w = elim (b.ctx_err w) [
    | some e ↦ (w, err e)
    | none ↦
        stage (codes "encode") (b.convert (format_text spec.output) spec.quality img w)
          (λ out w'. (w', ok out))
  ]

  abbrev pub mark : Text → TransformationSpec → I → W → W × Result Bytes
  mark text spec img w =
      if spec.watermark
      then stage (codes "watermark") (b.draw_watermark text img w) (encode spec)
      else encode spec img w

  abbrev pub scale : Text → TransformationSpec → I → W → W × Result Bytes
  scale text spec img w =
      stage (codes "resize")
        (b.resize spec.width spec.height (is_derived spec.width || is_derived spec.height) img w)
        (mark text spec)

  abbrev pub clean : Text → TransformationSpec → I → W → W × Result Bytes
  clean text spec img w =
      if spec.strip_metadata
      then stage (codes "strip metadata") (b.strip img w) (scale text spec)
      else scale text spec img w

  -- The guards of `Process`, in their order, then the pipeline. `text` is the configured watermark,
  -- no input is a nil reader.
  unfoldable pub process : Text → Option Bytes → TransformationSpec → W → W × Result Bytes
  process text none spec w = (w, err (wrap (codes "imageproc: ") (sentinel empty_source) []))
  process text (some input) spec w = elim (validate spec) [
    | some e ↦ (w, err (wrap (codes "imageproc: ") e []))
    | none ↦ elim (b.ctx_err w) [
      | some e ↦ (w, err e)
      | none ↦ stage (codes "open source") (b.open_image input w) (clean text spec)
    ]
  ]

  -- A result is only ever produced for a usable specification, a given source and a live context.
  pub process-IsUsable :
      (text : Text) (input : Option Bytes) (spec : TransformationSpec) (w : W) {out : Bytes}
      → (process text input spec w).1 ≡ ok out
      → IsUsable spec × (input ≢ none) × (b.ctx_err w ≡ none)
  unfolding process
  process-IsUsable text none spec w h = cc
  process-IsUsable text (some input) spec w h = elim (Option-cases (validate spec)) [
    | inl v ↦ ((validate-IsUsable spec).0 v, (λ e. cc), ground arith)
    | inr (e, v) ↦ absurd (ground arith)
  ]
