-- ===== src/S3storage.antt =====
-- internal/adapters/s3storage/s3storage.go: objects in a bucket. The S3 client and the SDK's upload
-- manager are parameters; a call of theirs acts on the world `W`, which holds the context too.
pub mod Objects
use image_forge.Prelude.{
  ℕ, Bool, false, ◌||◌, Option, none, some, List, [], ◌∷◌, ◌++◌, Text, codes, blank, contains,
  member, if◌then◌else◌, ℤ, pos, pos_part, ltb_ℤ,
}
use image_forge.Errors.{invalid_key, not_exist, Error, new, sentinel, wrap, Result, ok, err}
use image_forge.Domain.Spec.{quote}
use image_forge.Ports.{Bytes, Storage}

-- What the adapter uses of the SDK: `is_typed` is `errors.As` with NoSuchKey or NoSuchBucket, and
-- `api_code` the ErrorCode of the smithy API error that an error holds, if it holds one.
pub record Client (W : Type 0) : Type 0 where
  -- the bucket, the key, the content, the size of a part
  pub upload : Text → Text → Bytes → ℕ → W → W × Option Error
  pub get_object : Text → Text → W → W × Result Bytes
  pub is_no_such_key : Error → Bool
  pub is_no_such_bucket : Error → Bool
  pub api_code : Error → Option Text

pub record Bucket : Type 0 where
  pub name : Text
  pub part_size : ℕ

abbrev pub default_part_size : ℕ
default_part_size = 8388608

unfoldable pub with_part_size : ℤ → Bucket → Bucket
with_part_size size b = if ltb_ℤ (pos 0) size then record b { part_size = pos_part size } else b

apply_options : List (Bucket → Bucket) → Bucket → Bucket
apply_options [] b = b
apply_options (opt ∷ opts) b = apply_options opts (opt b)

-- `New`, of a client that is not nil.
unfoldable pub new_storage : Text → List (Bucket → Bucket) → Result Bucket
unfolding apply_options
new_storage name opts =
    if blank name
    then err (wrap (codes "s3storage: ") (sentinel invalid_key) (codes ": bucket is empty"))
    else ok (apply_options opts (record { name = name; part_size = default_part_size }))

-- `validateKey`
unfoldable pub validate_key : Text → Option Error
validate_key key =
    if blank key
    then some (wrap (codes "s3storage: ") (sentinel invalid_key) (codes ": key is empty"))
    else if contains (0 ∷ []) key
    then some
        (wrap (codes "s3storage: ") (sentinel invalid_key) (codes ": key contains a null byte"))
    else none

not_found_code : Option Text → Bool
not_found_code none = false
not_found_code (some code) =
    member code (codes "NoSuchKey" ∷ codes "NotFound" ∷ codes "NoSuchBucket" ∷ [])

module _ {W : Type 0} (client : Client W) where
  -- `isNotFound`
  unfoldable pub is_not_found : Error → Bool
  unfolding not_found_code
  is_not_found e =
      client.is_no_such_key e || client.is_no_such_bucket e || not_found_code (client.api_code e)

  uploaded : Text → W × Option Error → W × Option Error
  uploaded key (w, none) = (w, none)
  uploaded key (w, some e) =
      (w, some (wrap (codes "s3storage: put " ++ quote key ++ codes ": ") e []))

  put_valid : Bucket → Option Error → Text → Option Bytes → W → W × Option Error
  unfolding uploaded
  put_valid b (some e) key content w = (w, some e)
  put_valid b none key none w =
      (w, some (new (codes "s3storage: put " ++ quote key ++ codes ": no data")))
  put_valid b none key (some content) w =
      uploaded key (client.upload b.name key content b.part_size w)

  -- `Storage.Put`; no data is a nil reader.
  unfoldable pub put : Bucket → Text → Option Bytes → W → W × Option Error
  unfolding put_valid
  put b key content w = put_valid b (validate_key key) key content w

  fetched : Text → W × Result Bytes → W × Result Bytes
  unfolding is_not_found
  fetched key (w, ok content) = (w, ok content)
  fetched key (w, err e) = (
    w,
    err (
        wrap (codes "s3storage: get " ++ quote key ++ codes ": ")
          (if is_not_found e then sentinel not_exist else e) []),
  )

  get_valid : Bucket → Option Error → Text → W → W × Result Bytes
  unfolding fetched
  get_valid b (some e) key w = (w, err e)
  get_valid b none key w = fetched key (client.get_object b.name key w)

  -- `Storage.Get`
  unfoldable pub get : Bucket → Text → W → W × Result Bytes
  unfolding get_valid
  get b key w = get_valid b (validate_key key) key w

  -- The storage behind its port.
  unfoldable pub storage : Bucket → Storage W
  unfolding put get
  storage b = record { put = λ key content w. put b key (some content) w; fetch = get b }
