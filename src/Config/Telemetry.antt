-- ===== src/Config/Telemetry.antt =====
-- internal/telemetry/env.go: the tracing configuration. The parsing of a float is a parameter.
use image_forge.Prelude.{
  Bool, true, false, not, Option, none, some, [], ◌∷◌, Text, codes, has_prefix, trim_space, member,
  if◌then◌else◌,
}
use image_forge.Config.{Environment, env}

-- `Config` of internal/telemetry, without the exporter that tests set
pub record Tracing (F : Type 0) : Type 0 where
  pub service_name : Text
  pub service_version : Text
  pub environment : Text
  pub endpoint : Text
  pub insecure : Bool
  pub sample_ratio : F
  pub disabled : Bool

-- `strconv.ParseBool`
parse_bool : Text → Option Bool
parse_bool s =
    if member s
      (codes "1" ∷ codes "t" ∷ codes "T" ∷ codes "TRUE" ∷ codes "true" ∷ codes "True" ∷ [])
    then some true
    else if member s
        (codes "0" ∷ codes "f" ∷ codes "F" ∷ codes "FALSE" ∷ codes "false" ∷ codes "False" ∷ [])
    then some false
    else none

given {ℓ} : {A : Type ℓ} → Option A → A → A
given none fallback = fallback
given (some v) fallback = v

parsed {ℓ} : {A : Type ℓ} → (Text → Option A) → Option Text → A → A
unfolding given
parsed parse none fallback = fallback
parsed parse (some raw) fallback = given (parse (trim_space raw)) fallback

-- `envFloat`, by what parses a float
unfoldable pub env_float : {F : Type 0} → (Text → Option F) → Environment → Text → F → F
unfolding parsed
env_float parse lookup_env key fallback = parsed parse (lookup_env key) fallback

unfoldable pub env_bool : Environment → Text → Bool → Bool
unfolding parsed parse_bool
env_bool lookup_env key fallback = parsed parse_bool (lookup_env key) fallback

-- `ConfigFromEnv`; `one` is the float 1.
unfoldable pub config_from_env :
    {F : Type 0} → (Text → Option F) → F → Environment → Text → Text → Tracing F
unfolding env env_float env_bool
config_from_env parse one lookup_env service_name version =
    let endpoint =
      env lookup_env (codes "OTEL_EXPORTER_OTLP_TRACES_ENDPOINT")
        (env lookup_env (codes "OTEL_EXPORTER_OTLP_ENDPOINT") []) in
    record {
      service_name = env lookup_env (codes "OTEL_SERVICE_NAME") service_name;
      service_version = version;
      environment = env lookup_env (codes "IMAGEFORGE_ENV") [];
      endpoint = endpoint;
      insecure = not (has_prefix (codes "https://") endpoint);
      sample_ratio = env_float parse lookup_env (codes "OTEL_TRACES_SAMPLER_ARG") one;
      disabled = env_bool lookup_env (codes "OTEL_SDK_DISABLED") false;
    }
