-- ===== src/Httpapi/Auth.antt =====
-- internal/adapters/httpapi/auth.go: tokens and the bearer header. The JWT library is a parameter.
-- Instants are nanoseconds; a NumericDate is cut to whole seconds.

pub mod Tokens
pub mod Hex
use image_forge.Prelude.{
  ℕ, ◌+◌, ◌-◌, ◌*◌, ◌/◌, Bool, true, false, not, ◌&&◌, Option, none, some, List, [], ◌∷◌, ◌++◌,
  Text, codes, text_eq, decimal, blank, trim_space, cut, lower, ltb, leb, if◌then◌else◌, length, ℤ,
  pos, pos_part, ltb_ℤ,
}
use image_forge.Errors.{
  no_credentials, invalid_token, no_signing_key, Error, new, sentinel, wrap, join, end, also,
  Result, ok, err,
}

abbrev pub issuer_name : Text
issuer_name = codes "imageforge"

-- HS256
abbrev pub signing_method : Text
signing_method = codes "HS256"

abbrev pub nanoseconds : ℕ
nanoseconds = 1000000000

abbrev pub default_token_ttl : ℕ
default_token_ttl = 3600 * nanoseconds

abbrev pub clock_skew : ℕ
clock_skew = 30 * nanoseconds

pub record Claims : Type 0 where
  pub issuer : Text
  pub subject : Text
  pub issued_at : ℕ
  pub not_before : ℕ
  pub expires_at : ℕ

-- The parser's options: the methods that are accepted, the issuer, that an expiry is required, the
-- leeway and the current time.
pub record Checks : Type 0 where
  pub methods : List Text
  pub issuer : Text
  pub expiration_required : Bool
  pub leeway : ℕ
  pub now : ℕ

-- What the service uses of the library: a signed token is made with a method and a key.
pub record Jwt : Type 0 where
  pub signed_string : Text → Claims → Text → Result Text
  pub parse_with_claims : Text → Text → Checks → Result Claims

pub record TokenIssuer : Type 0 where
  pub key : Text
  pub ttl : ℕ
  pub secret : Text

unfoldable pub with_token_ttl : ℤ → TokenIssuer → TokenIssuer
with_token_ttl d i = if ltb_ℤ (pos 0) d then record i { ttl = pos_part d } else i

unfoldable pub with_client_secret : Text → TokenIssuer → TokenIssuer
with_client_secret secret i = record i { secret = secret }

apply_options : List (TokenIssuer → TokenIssuer) → TokenIssuer → TokenIssuer
apply_options [] i = i
apply_options (opt ∷ opts) i = apply_options opts (opt i)

-- `NewIssuer`
unfoldable pub new_issuer : Text → List (TokenIssuer → TokenIssuer) → Result TokenIssuer
unfolding apply_options
new_issuer key opts =
    if ltb (length key) 32
    then err (
        wrap [] (sentinel no_signing_key)
          (codes ": the signing key must be at least 32 bytes, got " ++ decimal (length key)))
    else ok (apply_options opts (record { key = key; ttl = default_token_ttl; secret = [] }))

-- `jwt.NewNumericDate`
abbrev pub numeric_date : ℕ → ℕ
numeric_date t = t / nanoseconds * nanoseconds

abbrev pub claims_for : TokenIssuer → Text → ℕ → Claims
claims_for i client_id issued_at = record {
  issuer = issuer_name;
  subject = client_id;
  issued_at = numeric_date issued_at;
  not_before = numeric_date issued_at;
  expires_at = numeric_date (issued_at + i.ttl);
}

signed : Result Text → Result Text
signed (ok token) = ok token
signed (err e) = err (wrap (codes "httpapi: sign token: ") e [])

-- `Authorize`
unfoldable pub authorize : TokenIssuer → Text → Text → Bool
authorize i client_id secret =
    if blank client_id then false else if text_eq i.secret [] then true else text_eq secret i.secret

-- `Errorf("%w: %w", ErrInvalidToken, err)`, of which only `errors.Is` is read.
abbrev pub invalid : Error → Error
invalid e = join (also (sentinel invalid_token) (also e end))

verified : Result Claims → Result Text
verified (err e) = err (invalid e)
verified (ok claims) =
    if blank claims.subject
    then err (wrap [] (sentinel invalid_token) (codes ": the token names no subject"))
    else ok claims.subject

abbrev pub checks_at : ℕ → Checks
checks_at now = record {
  methods = signing_method ∷ [];
  issuer = issuer_name;
  expiration_required = true;
  leeway = clock_skew;
  now = now;
}

module _ (jwt : Jwt) where
  -- `Issue`, at the instant that the issuer's clock reads.
  unfoldable pub issue : TokenIssuer → Text → ℕ → Result Text
  unfolding signed
  issue i client_id now =
      if blank client_id
      then err (new (codes "httpapi: cannot issue a token for an empty client id"))
      else signed (jwt.signed_string signing_method (claims_for i client_id now) i.key)

  -- `Verify`, at the instant that the issuer's clock reads.
  unfoldable pub verify : TokenIssuer → Text → ℕ → Result Text
  unfolding verified
  verify i token now = verified (jwt.parse_with_claims token i.key (checks_at now))

wrong_scheme : Error
wrong_scheme =
    wrap [] (sentinel invalid_token) (codes ": the Authorization header must use the Bearer scheme")

bearer : Option (Text × Text) → Result Text
unfolding wrong_scheme
bearer none = err wrong_scheme
bearer (some (scheme, token)) =
    if not (text_eq (lower scheme) (codes "bearer"))
    then err wrong_scheme
    else if text_eq (trim_space token) []
    then err (sentinel no_credentials)
    else ok (trim_space token)

-- `bearerToken`, of the Authorization header.
unfoldable pub bearer_token : Text → Result Text
unfolding bearer
bearer_token header =
    if text_eq header [] then err (sentinel no_credentials) else bearer (cut b' ' header)

-- A hexadecimal digit
nibble : ℕ → Option ℕ
nibble c =
    if leb b'0' c && leb c b'9'
    then some (c - b'0')
    else if leb b'a' c && leb c b'f'
    then some (c - b'a' + 10)
    else if leb b'A' c && leb c b'F'
    then some (c - b'A' + 10)
    else none

byte : Option ℕ → Option ℕ → Option Text → Option Text
byte (some a) (some b) (some rest) = some ((16 * a + b) ∷ rest)
byte _ _ _ = none

-- `hex.DecodeString`, where it gives no error
unfoldable pub decode_hex : Text → Option Text
unfolding nibble byte
decode_hex [] = some []
decode_hex (a ∷ []) = none
decode_hex (a ∷ b ∷ s) = byte (nibble a) (nibble b) (decode_hex s)

-- `ParseKey`: the error of hex.DecodeString stands beside ErrNoSigningKey; only `errors.Is` reads it.
unfoldable pub parse_key : Text → Result Text
unfolding decode_hex
parse_key encoded = elim (decode_hex (trim_space encoded)) [
  | none ↦ err (wrap [] (sentinel no_signing_key) (codes ": the key must be hex-encoded"))
  | some key ↦ ok key
]

-- `GenerateKey`, by what the system's random source gives for 32 bytes
unfoldable pub generate_key : Result Text → Result Text
generate_key (ok key) = ok key
generate_key (err e) = err (wrap (codes "generate signing key: ") e [])
