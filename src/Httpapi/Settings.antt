-- ===== src/Httpapi/Settings.antt =====
-- internal/adapters/httpapi/api.go: the settings of an API. A rate is a whole number of requests per
-- second, as the programs set it.
use image_forge.Prelude.{zero, List, [], ◌∷◌, Text, codes, ◌==◌, if◌then◌else◌, ℤ, pos, leb_ℤ}
use image_forge.Httpapi.RateLimit.{Limiter, new_limiter}

pub record Config : Type 0 where
  pub max_upload_bytes : ℤ
  pub allowed_origins : List Text
  pub public_base_url : Text
  -- zero: the default; less: no limit
  pub rate_limit : ℤ
  pub rate_burst : ℤ

abbrev pub default_max_upload_bytes : ℤ
default_max_upload_bytes = pos 10485760

abbrev pub default_rate_limit : ℤ
default_rate_limit = pos 5

abbrev pub default_rate_burst : ℤ
default_rate_burst = pos 20

-- `strings.TrimSuffix` with a slash
without_slash : Text → Text
without_slash [] = []
without_slash (c ∷ []) = if c == b'/' then [] else c ∷ []
without_slash (c ∷ d ∷ s) = c ∷ without_slash (d ∷ s)

origins_or_any : List Text → List Text
origins_or_any [] = codes "*" ∷ []
origins_or_any (o ∷ os) = o ∷ os

unless_zero : ℤ → ℤ → ℤ
unless_zero (pos zero) fallback = fallback
unless_zero v fallback = v

-- The settings that `New` keeps, and its limiter.
unfoldable pub new_api : {L : Type 0} → Config → Config × Limiter L
unfolding without_slash origins_or_any unless_zero
new_api cfg =
    let limit = unless_zero cfg.rate_limit default_rate_limit in
    let burst = unless_zero cfg.rate_burst default_rate_burst in
    (
      record {
        max_upload_bytes =
            if leb_ℤ cfg.max_upload_bytes (pos 0)
            then default_max_upload_bytes
            else cfg.max_upload_bytes;
        allowed_origins = origins_or_any cfg.allowed_origins;
        public_base_url = without_slash cfg.public_base_url;
        rate_limit = limit;
        rate_burst = burst;
      },
      new_limiter limit burst,
    )
