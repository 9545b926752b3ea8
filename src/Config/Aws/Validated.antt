-- ===== src/Config/Aws/Validated.antt =====
-- What valid settings have.
use image_forge.Prelude.{
  ◌≡◌, refl, inl, inr, false, none, List, [], ◌∷◌, arith, Text, codes, blank, Bool-cases,
}
use image_forge.Errors.{Error, join_all}
use image_forge.Config.Aws.{Settings, missing, validate_settings}

join_all-none : (es : List Error) → join_all es ≡ none → es ≡ []
unfolding join_all
join_all-none [] h = refl
join_all-none (e ∷ es) h = cc

missing-none :
    (name value : Text) (errs : List Error)
    → missing name value errs ≡ []
    → (blank value ≡ false) × (errs ≡ [])
unfolding missing
missing-none name value errs h = elim (Bool-cases (blank value)) [
  | inl t ↦ absurd (ground arith)
  | inr f ↦ (f, ground arith)
]

pub validated :
    (s : Settings)
    → validate_settings s ≡ none
    → (blank s.bucket ≡ false) × (blank s.queue ≡ false) × (blank s.table ≡ false)
unfolding validate_settings
validated s h =
    let (_, a) = missing-none (codes "region") s.region _ (join_all-none _ h) in
    let (b, c) = missing-none (codes "bucket") s.bucket _ a in
    let (d, e) = missing-none (codes "queue") s.queue _ c in
    let (f, _) = missing-none (codes "table") s.table _ e in (b, d, f)
