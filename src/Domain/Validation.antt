-- ===== src/Domain/Validation.antt =====
-- What `TransformationSpec.Validate` promises.
use image_forge.Errors.{
  Sentinel, invalid_dimensions, invalid_format, invalid_quality, Error, is, any_is, errors,
  join_all,
}
use image_forge.Prelude.{
  ◌≡◌, refl, ◌≢◌, ◌↔◌, ◌⊎◌, Bool, true, false, ◌||◌, Option, none, some, List, [], ◌∷◌, ◌++◌, arith,
  pos, ◌≤ℤ◌,
}
use image_forge.Domain.Spec.{
  max_dimension, jpeg, png, webp, avif, valid_format, lossy, TransformationSpec, dimension_errors,
  format_errors, quality_errors, validate,
}

-- The documented rules for a usable specification.
pub record IsUsable (s : TransformationSpec) : Type 0 where
  pub width_low : pos 0 ≤ℤ s.width
  pub width_high : s.width ≤ℤ max_dimension
  pub height_low : pos 0 ≤ℤ s.height
  pub height_high : s.height ≤ℤ max_dimension
  pub some_side : (s.width ≢ pos 0) ⊎ (s.height ≢ pos 0)
  pub supported : (s.output ≡ jpeg) ⊎ (s.output ≡ png) ⊎ (s.output ≡ webp) ⊎ (s.output ≡ avif)
  pub quality_low : pos 0 ≤ℤ s.quality
  pub quality_high : s.quality ≤ℤ pos 100
  pub lossless : s.output ≡ png → s.quality ≡ pos 0

-- The rules of each group alone.
abbrev pub DimensionsUsable : TransformationSpec → Type 0
DimensionsUsable s =
    (pos 0 ≤ℤ s.width)
    × (s.width ≤ℤ max_dimension)
    × (pos 0 ≤ℤ s.height)
    × (s.height ≤ℤ max_dimension)
    × ((s.width ≢ pos 0) ⊎ (s.height ≢ pos 0))

abbrev pub FormatUsable : TransformationSpec → Type 0
FormatUsable s = (s.output ≡ jpeg) ⊎ (s.output ≡ png) ⊎ (s.output ≡ webp) ⊎ (s.output ≡ avif)

abbrev pub QualityUsable : TransformationSpec → Type 0
QualityUsable s =
    (pos 0 ≤ℤ s.quality) × (s.quality ≤ℤ pos 100) × (s.output ≡ png → s.quality ≡ pos 0)

dimension_errors_iff : (s : TransformationSpec) → (dimension_errors s ≡ []) ↔ DimensionsUsable s
unfolding dimension_errors
dimension_errors_iff s = (λ h. ground arith, λ h. ground arith)

format_errors_iff : (s : TransformationSpec) → (format_errors s ≡ []) ↔ FormatUsable s
unfolding format_errors valid_format
format_errors_iff s = (λ h. ground arith, λ h. ground arith)

quality_errors_iff : (s : TransformationSpec) → (quality_errors s ≡ []) ↔ QualityUsable s
unfolding quality_errors valid_format lossy
quality_errors_iff s = (λ h. ground arith, λ h. ground arith)

join_all-none : (es : List Error) → join_all es ≡ none → es ≡ []
unfolding join_all
join_all-none [] h = refl
join_all-none (e ∷ es) h = cc

abbrev pub joined_is : Option Error → Sentinel → Bool
joined_is none t = false
joined_is (some e) t = is e t

-- Whether the error that `validate` returns is one of the given sentinel, by `errors.Is`.
abbrev pub reports : TransformationSpec → Sentinel → Bool
reports s t = joined_is (validate s) t

-- The same question of a list of errors before it is joined.
found : List Error → Sentinel → Bool
found [] t = false
found (e ∷ es) t = is e t || found es t

found-append : (es fs : List Error) (t : Sentinel) → found (es ++ fs) t ≡ found es t || found fs t
unfolding found
found-append [] fs t = refl
found-append (e ∷ es) fs t = ground (arith, found-append es fs t)

any_is-errors : (es : List Error) (t : Sentinel) → any_is (errors es) t ≡ found es t
unfolding found errors any_is
any_is-errors [] t = refl
any_is-errors (e ∷ es) t = ground (arith, any_is-errors es t)

joined_is-join_all : (es : List Error) (t : Sentinel) → joined_is (join_all es) t ≡ found es t
unfolding found join_all is any_is
joined_is-join_all [] t = refl
joined_is-join_all (e ∷ es) t = rw (any_is-errors es t)

reports-groups :
    (s : TransformationSpec) (t : Sentinel)
    → reports s t
      ≡ found (dimension_errors s) t || found (format_errors s) t || found (quality_errors s) t
unfolding validate
reports-groups s t = ground (
  arith,
  joined_is-join_all (dimension_errors s ++ format_errors s ++ quality_errors s) t,
  found-append (dimension_errors s ++ format_errors s) (quality_errors s) t,
  found-append (dimension_errors s) (format_errors s) t,
)

found-dimension_errors :
    (s : TransformationSpec)
    → (found (dimension_errors s) invalid_dimensions ≡ false ↔ DimensionsUsable s)
      × (found (dimension_errors s) invalid_format ≡ false)
      × (found (dimension_errors s) invalid_quality ≡ false)
unfolding found dimension_errors is
found-dimension_errors s = ((λ h. ground arith, λ h. ground arith), ground arith, ground arith)

found-format_errors :
    (s : TransformationSpec)
    → (found (format_errors s) invalid_dimensions ≡ false)
      × (found (format_errors s) invalid_format ≡ false ↔ FormatUsable s)
      × (found (format_errors s) invalid_quality ≡ false)
unfolding found format_errors is valid_format
found-format_errors s = (ground arith, (λ h. ground arith, λ h. ground arith), ground arith)

found-quality_errors :
    (s : TransformationSpec)
    → (found (quality_errors s) invalid_dimensions ≡ false)
      × (found (quality_errors s) invalid_format ≡ false)
      × (found (quality_errors s) invalid_quality ≡ false ↔ QualityUsable s)
unfolding found quality_errors is valid_format lossy
found-quality_errors s = (ground arith, ground arith, (λ h. ground arith, λ h. ground arith))

append-nil_parts : (es fs : List Error) → es ++ fs ≡ [] → (es ≡ []) × (fs ≡ [])
append-nil_parts [] fs h = (refl, h)
append-nil_parts (e ∷ es) fs h = cc

-- A specification passes exactly when it keeps every documented rule.
pub validate-IsUsable : (s : TransformationSpec) → (validate s ≡ none) ↔ IsUsable s
unfolding validate
validate-IsUsable s = (
  λ h.
      let all = append-nil_parts _ _ (join_all-none _ h) in
      let left = append-nil_parts _ _ all.0 in
      let d = (dimension_errors_iff s).0 left.0 in
      let f = (format_errors_iff s).0 left.1 in
      let q = (quality_errors_iff s).0 all.1 in ground (arith, d, f, q),
  λ u.
      let d = (dimension_errors_iff s).1 (ground arith) in
      let f = (format_errors_iff s).1 u.supported in
      let q = (quality_errors_iff s).1 (u.quality_low, u.quality_high, u.lossless) in
      rw (d, f, q) (unfold join_all in refl),
)

or-false : (b : Bool) → (b || false) ≡ b
or-false true = refl
or-false false = refl

-- The joined error names exactly the groups of rules that are broken.
pub validate-reports :
    (s : TransformationSpec)
    → (reports s invalid_dimensions ≡ false ↔ DimensionsUsable s)
      × (reports s invalid_format ≡ false ↔ FormatUsable s)
      × (reports s invalid_quality ≡ false ↔ QualityUsable s)
validate-reports s =
    let d = found-dimension_errors s in
    let f = found-format_errors s in
    let q = found-quality_errors s in
    (
      rw (reports-groups s invalid_dimensions, f.0, q.0) (simp or-false d.0),
      rw (reports-groups s invalid_format, d.1, q.1) (simp or-false f.1),
      rw (reports-groups s invalid_quality, d.2, f.2) q.2,
    )
