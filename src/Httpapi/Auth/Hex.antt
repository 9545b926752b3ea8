-- ===== src/Httpapi/Auth/Hex.antt =====
-- Hexadecimal text, as new ids and configured keys have it.
use image_forge.Errors.{ok}
use image_forge.Prelude.{ℕ, ◌/◌, ◌%◌, ◌<◌, ◌≡◌, refl, ap, some, [], ◌∷◌, arith, Text, All}
use image_forge.Usecase.Ids.{digit, encode_hex, new_id}
use image_forge.Httpapi.Auth.{nibble, byte, decode_hex}

nibble-digit : (n : ℕ) → n < 16 → nibble (digit n) ≡ some n
unfolding nibble digit
nibble-digit n h = ground arith

decode_hex-encode_hex :
    (bytes : Text) → All (λ b. b < 256) bytes → decode_hex (encode_hex bytes) ≡ some bytes
unfolding decode_hex encode_hex byte
decode_hex-encode_hex [] h = refl
decode_hex-encode_hex (b ∷ bs) (h, hs) =
    rw
      (
        nibble-digit (b / 16) (omega arith),
        nibble-digit (b % 16) (omega arith),
        decode_hex-encode_hex bs hs,
      )
      (ap (λ x. some (x ∷ bs)) (omega arith))

-- A job's id keeps all of its random bytes: what decodes hexadecimal text gives them back, so that
-- two jobs have the same id only if they drew the same bytes.
pub decode_hex-new_id :
    (bytes : Text) (id : Text)
    → All (λ b. b < 256) bytes
    → new_id (ok bytes) ≡ some id
    → decode_hex id ≡ some bytes
unfolding new_id
decode_hex-new_id bytes id h e = ground (arith, e, decode_hex-encode_hex bytes h)
