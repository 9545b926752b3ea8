-- ===== src/Httpapi/Media.antt =====
-- internal/adapters/httpapi/media.go: what an upload is, by its first bytes. `detect` stands for
-- http.DetectContentType, whose answers are ASCII, so its case is ASCII's here. An
-- upload is its content, with the error that its reader gives before 512 bytes, if it gives one.
use image_forge.Prelude.{
  ℕ, Bool, ◌&&◌, ◌||◌, Option, none, some, List, [], ◌∷◌, Text, codes, has_prefix, trim_space, cut,
  lower, member, leb, if◌then◌else◌, length, take, drop,
}
use image_forge.Errors.{unsupported_media_type, Error, sentinel, wrap, Result, ok, err}
use image_forge.Ports.{Bytes}

abbrev pub allowed_media_types : List Text
allowed_media_types =
    codes "image/jpeg"
    ∷ codes "image/png"
    ∷ codes "image/webp"
    ∷ codes "image/gif"
    ∷ codes "image/avif"
    ∷ codes "image/bmp"
    ∷ []

abbrev pub sniff_len : ℕ
sniff_len = 512

-- What stands before a semicolon, if there is one.
before_semicolon : Option (Text × Text) → Text → Text
before_semicolon none value = value
before_semicolon (some (base, _)) value = base

unfoldable pub normalize_media_type : Text → Text
unfolding before_semicolon
normalize_media_type value = lower (trim_space (before_semicolon (cut b';' value) value))

unfoldable pub allowed_media_type : Text → Bool
allowed_media_type media_type = member media_type allowed_media_types

-- The type of `head`, by the signatures of WebP and AVIF before `detect`.
unfoldable pub detected : (Bytes → Text) → Bytes → Text
unfolding normalize_media_type
detected detect head =
    if leb 12 (length head)
      && has_prefix (codes "RIFF") head
      && has_prefix (codes "WEBP") (drop 8 head)
    then codes "image/webp"
    else if leb 12 (length head)
        && has_prefix (codes "ftyp") (drop 4 head)
        && (has_prefix (codes "avif") (drop 8 head) || has_prefix (codes "avis") (drop 8 head))
    then codes "image/avif"
    else normalize_media_type (detect head)

peeked : (Bytes → Text) → Bytes → Bytes → Result (Text × Bytes)
unfolding detected
peeked detect [] body =
    err (wrap [] (sentinel unsupported_media_type) (codes ": the upload is empty"))
peeked detect (a ∷ head) body = ok (detected detect (a ∷ head), body)

-- `sniffMediaType`: the type, and a reader of the whole upload.
unfoldable pub sniff_media_type : (Bytes → Text) → Option Error → Bytes → Result (Text × Bytes)
unfolding peeked
sniff_media_type detect (some e) body = err (wrap (codes "read the start of the upload: ") e [])
sniff_media_type detect none body = peeked detect (take sniff_len body) body
