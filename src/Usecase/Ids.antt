-- ===== src/Usecase/Ids.antt =====
-- internal/usecase/usecase.go: the identifiers of jobs. The random bytes are an input.
use image_forge.Prelude.{
  ℕ, ◌+◌, ◌-◌, ◌/◌, ◌%◌, Option, none, some, [], ◌∷◌, Text, ltb, if◌then◌else◌,
}
use image_forge.Errors.{Result, ok, err}

unfoldable pub digit : ℕ → ℕ
digit n = if ltb n 10 then b'0' + n else b'a' + (n - 10)

-- `hex.EncodeToString`
unfoldable pub encode_hex : Text → Text
unfolding digit
encode_hex [] = []
encode_hex (b ∷ bs) = digit (b / 16) ∷ digit (b % 16) ∷ encode_hex bs

-- `newID`, which panics without random bytes.
unfoldable pub new_id : Result Text → Option Text
unfolding encode_hex
new_id (err e) = none
new_id (ok bytes) = some (encode_hex bytes)
