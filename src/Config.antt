-- ===== src/Config.antt =====
-- The settings of the programs: internal/adapters/awscfg/awscfg.go, the choice of a backend in
-- internal/adapters/backend.go, and how cmd/api and cmd/worker read the environment. The
-- environment is what os.LookupEnv finds. time.ParseDuration and the parsing of a log level are
-- parameters.
pub mod Aws
pub mod Backend
pub mod Programs
pub mod Telemetry
use image_forge.Prelude.{
  Option, none, some, Text, codes, blank, trim_space, lower, if◌then◌else◌, ℤ,
}
use image_forge.Errors.{Result, ok, err}
use image_forge.Sqsqueue.Open.{atoi}

abbrev pub Environment : Type 0
Environment = Text → Option Text

trimmed : Option Text → Text → Text
trimmed none fallback = fallback
trimmed (some v) fallback = if blank v then fallback else trim_space v

-- `env` of awscfg and of telemetry
unfoldable pub env : Environment → Text → Text → Text
unfolding trimmed
env lookup_env key fallback = trimmed (lookup_env key) fallback

or_else {ℓ} : {A : Type ℓ} → Option A → A → A
or_else none fallback = fallback
or_else (some v) fallback = v

-- `envString` of cmd/api
unfoldable pub env_string : Environment → Text → Text → Text
unfolding or_else
env_string lookup_env key fallback = or_else (lookup_env key) fallback

unless_blank : Option Text → Text → Text
unless_blank none fallback = fallback
unless_blank (some v) fallback = if blank v then fallback else v

-- `envString` of cmd/worker
unfoldable pub env_text : Environment → Text → Text → Text
unfolding unless_blank
env_text lookup_env key fallback = unless_blank (lookup_env key) fallback

number_or : Result ℤ → ℤ → ℤ
number_or (ok v) fallback = v
number_or (err e) fallback = fallback

parsed_or : Option Text → ℤ → ℤ
unfolding number_or atoi
parsed_or none fallback = fallback
parsed_or (some raw) fallback = number_or (atoi raw) fallback

-- `envInt64`
unfoldable pub env_int64 : Environment → Text → ℤ → ℤ
unfolding parsed_or
env_int64 lookup_env key fallback = parsed_or (lookup_env key) fallback

read_or {ℓ} : {A : Type ℓ} → (Text → Option A) → Option Text → A → A
unfolding or_else
read_or parse none fallback = fallback
read_or parse (some raw) fallback = or_else (parse raw) fallback

-- `envDuration` and `envLogLevel`, by what parses the value.
unfoldable pub env_read {ℓ} : {A : Type ℓ} → (Text → Option A) → Environment → Text → A → A
unfolding read_or
env_read parse lookup_env key fallback = read_or parse (lookup_env key) fallback

abbrev pub backend_memory : Text
backend_memory = codes "memory"

abbrev pub backend_aws : Text
backend_aws = codes "aws"

named_backend : Option Text → Text
named_backend none = backend_memory
named_backend (some v) = if blank v then backend_memory else lower (trim_space v)

-- `BackendFromEnv`. Of the letters that strings.ToLower takes to ASCII from beyond it, none is in a
-- backend's name.
unfoldable pub backend_from_env : Environment → Text
unfolding named_backend
backend_from_env lookup_env = named_backend (lookup_env (codes "IMAGEFORGE_BACKEND"))
