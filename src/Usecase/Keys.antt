-- ===== src/Usecase/Keys.antt =====
-- internal/usecase/usecase.go: the storage keys of a job.
use image_forge.Prelude.{◌≡◌, ◌≢◌, [], ◌∷◌, ◌++◌, arith, Text, codes}
use image_forge.Domain.Spec.{ext, TransformationSpec}

unfoldable pub original_key : Text → Text
original_key id = codes "originals/" ++ id

-- The key with the extension, if there is one.
abbrev keyed : Text → Text → Text
keyed id [] = codes "results/" ++ id
keyed id (c ∷ cs) = codes "results/" ++ id ++ codes "." ++ c ∷ cs

unfoldable pub result_key : Text → TransformationSpec → Text
result_key id spec = keyed id (ext spec.output)

-- The two prefixes keep the uploads and the results of all jobs apart.
pub original_key-ne-result_key :
    (id id' : Text) (spec : TransformationSpec) → original_key id ≢ result_key id' spec
unfolding original_key result_key ext
original_key-ne-result_key id id' spec h = ground arith

pub original_key-injective : (id id' : Text) → original_key id ≡ original_key id' → id ≡ id'
unfolding original_key
original_key-injective id id' h = cc

pub result_key-ne-nil : (id : Text) (spec : TransformationSpec) → result_key id spec ≢ []
unfolding result_key ext
result_key-ne-nil id spec h = ground arith
