-- ===== src/Examples/Requests.antt =====
-- The rate limiter at concrete inputs.
use image_forge.Prelude.{
  ℕ, ◌-◌, ◌≡◌, refl, true, none, some, [], ◌∷◌, codes, text_eq, has_prefix, trim_space, cut, lower,
  lookup, insert, ◌==◌, if◌then◌else◌,
}
use image_forge.Httpapi.RateLimit.{Rate, Limiter, client_ttl, allow}
use image_forge.Errors.{ok}
use image_forge.Httpapi.Media.{normalize_media_type, sniff_media_type}

-- A bucket that holds its tokens and gets none back; an empty one makes its client wait.
abbrev counting : Rate ℕ
counting = record {
  fresh = 2;
  reserve = λ now tokens. (tokens - 1, true, if tokens == 0 then 200000000 else 0);
  cancel = λ now tokens. tokens;
}

abbrev two_clients : Limiter ℕ
two_clients = record {
  enabled = true;
  ttl = client_ttl;
  clients =
      (codes "ann", record { limiter = 0; seen = 5 })
      ∷ (codes "bob", record { limiter = 1; seen = 700000000000 })
      ∷ [];
}

-- A token of one client leaves the other's bucket.
apart :
    lookup (codes "bob") (allow counting (codes "ann") 9 two_clients).0.clients
    ≡ some (record { limiter = 1; seen = 700000000000 })
unfolding allow lookup text_eq insert
apart = refl

sniffs :
    sniff_media_type (λ head. codes "text/plain; charset=utf-8") none (codes "RIFF....WEBPVP8 ")
    ≡ ok (codes "image/webp", codes "RIFF....WEBPVP8 ")
unfolding sniff_media_type has_prefix
sniffs = refl

normalizes : normalize_media_type (codes " Text/Plain ; charset=utf-8") ≡ codes "text/plain"
unfolding normalize_media_type trim_space cut lower
normalizes = refl
