-- ===== src/Config/Programs.antt =====
-- cmd/api/main.go, cmd/worker/main.go and internal/healthcheck/healthcheck.go: `loadConfig`, the token
-- issuer, the seeding of jobs, and the address of a probe. How the programs put their parts together
-- is in Programs.
use image_forge.Prelude.{
  ℕ, ◌*◌, true, false, ◌||◌, Option, none, some, List, [], ◌∷◌, ◌++◌, Text, codes, text_eq,
  has_prefix, trim_space, cut, ◌==◌, if◌then◌else◌, ℤ, pos,
}
use image_forge.Errors.{Error, wrap, Result, ok, err}
use image_forge.Domain.Job.{Job}
use image_forge.Domain.Spec.{format as format_spec, TransformationSpec, quote}
use image_forge.Ports.{Bytes}
use image_forge.Usecase.CreateJob.{CreateJobInput}
use image_forge.Httpapi.Auth.{
  nanoseconds, TokenIssuer, with_token_ttl, with_client_secret, new_issuer, parse_key,
}
use image_forge.Config.{Environment, env_string, env_text, env_int64, env_read, backend_from_env}

-- time.ParseDuration and slog.Level.UnmarshalText
pub record Parsers : Type 0 where
  pub duration : Text → Option ℤ
  pub level : Text → Option ℤ

-- cmd/api
pub record ApiConfig : Type 0 where
  pub backend : Text
  pub signing_key : Text
  pub client_secret : Text
  pub token_ttl : ℤ
  pub rate_limit : ℤ
  pub rate_burst : ℤ
  pub addr : Text
  pub storage_dir : Text
  pub public_base_url : Text
  pub cors_origins : List Text
  pub max_upload_bytes : ℤ
  pub queue_buffer : ℤ
  pub log_level : ℤ

split_rest : ℕ → List Text → ℕ → List Text
split_rest sep [] c = (c ∷ []) ∷ []
split_rest sep (w ∷ ws) c = if c == sep then [] ∷ w ∷ ws else (c ∷ w) ∷ ws

-- `strings.Split` at a byte
split_at : ℕ → Text → List Text
unfolding split_rest
split_at sep [] = [] ∷ []
split_at sep (c ∷ s) = split_rest sep (split_at sep s) c

origins : List Text → List Text
origins [] = []
origins (o ∷ os) =
    let rest = origins os in if text_eq (trim_space o) [] then rest else trim_space o ∷ rest

-- Durations are nanoseconds; slog's Info is 0.
unfoldable pub load_api_config : Parsers → Environment → ApiConfig
unfolding backend_from_env env_string env_int64 env_read origins split_at
load_api_config parse lookup_env = record {
  backend = backend_from_env lookup_env;
  signing_key = env_string lookup_env (codes "IMAGEFORGE_JWT_KEY") [];
  client_secret = env_string lookup_env (codes "IMAGEFORGE_CLIENT_SECRET") [];
  token_ttl =
      env_read parse.duration lookup_env (codes "IMAGEFORGE_TOKEN_TTL") (pos (3600 * nanoseconds));
  rate_limit = env_int64 lookup_env (codes "IMAGEFORGE_RATE_LIMIT") (pos 5);
  rate_burst = env_int64 lookup_env (codes "IMAGEFORGE_RATE_BURST") (pos 20);
  addr = env_string lookup_env (codes "IMAGEFORGE_ADDR") (codes ":8080");
  storage_dir = env_string lookup_env (codes "IMAGEFORGE_STORAGE_DIR") (codes ".data/storage");
  public_base_url = env_string lookup_env (codes "IMAGEFORGE_PUBLIC_BASE_URL") [];
  cors_origins =
      origins (split_at b',' (env_string lookup_env (codes "IMAGEFORGE_CORS_ORIGINS") (codes "*")));
  max_upload_bytes = env_int64 lookup_env (codes "IMAGEFORGE_MAX_UPLOAD_BYTES") (pos 10485760);
  queue_buffer = env_int64 lookup_env (codes "IMAGEFORGE_QUEUE_BUFFER") (pos 1024);
  log_level = env_read parse.level lookup_env (codes "IMAGEFORGE_LOG_LEVEL") (pos 0);
}

issuer_of : ApiConfig → Result Text → Result TokenIssuer
issuer_of cfg (err e) = err (wrap (codes "auth: ") e [])
issuer_of cfg (ok key) =
    elim (new_issuer key
      (with_token_ttl cfg.token_ttl ∷ with_client_secret cfg.client_secret ∷ [])) [
        | ok i ↦ ok i
        | err e ↦ err (wrap (codes "auth: ") e [])
      ]

-- `newIssuer`; the key that GenerateKey makes is an input.
unfoldable pub new_token_issuer : Result Text → ApiConfig → Result TokenIssuer
unfolding issuer_of new_issuer parse_key
new_token_issuer generated cfg =
    issuer_of cfg (if text_eq cfg.signing_key [] then generated else parse_key cfg.signing_key)

-- cmd/worker
pub record WorkerConfig : Type 0 where
  pub backend : Text
  pub metrics_addr : Text
  pub depth_interval : ℤ
  pub storage_dir : Text
  pub watermark_text : Text
  pub pool_size : ℤ
  pub queue_buffer : ℤ
  pub shutdown_timeout : ℤ
  pub job_timeout : ℤ
  pub seed_spec : TransformationSpec
  pub log_level : ℤ

unfoldable pub load_worker_config : Parsers → Environment → WorkerConfig
unfolding backend_from_env env_text env_int64 env_read
load_worker_config parse lookup_env = record {
  backend = backend_from_env lookup_env;
  metrics_addr = env_text lookup_env (codes "IMAGEFORGE_METRICS_ADDR") (codes ":9090");
  depth_interval =
      env_read parse.duration lookup_env (codes "IMAGEFORGE_QUEUE_DEPTH_INTERVAL")
        (pos (15 * nanoseconds));
  storage_dir = env_text lookup_env (codes "IMAGEFORGE_STORAGE_DIR") (codes ".data/storage");
  watermark_text = env_text lookup_env (codes "IMAGEFORGE_WATERMARK_TEXT") (codes "ImageForge");
  pool_size = env_int64 lookup_env (codes "IMAGEFORGE_WORKERS") (pos 4);
  queue_buffer = env_int64 lookup_env (codes "IMAGEFORGE_QUEUE_BUFFER") (pos 1024);
  shutdown_timeout =
      env_read parse.duration lookup_env (codes "IMAGEFORGE_SHUTDOWN_TIMEOUT")
        (pos (30 * nanoseconds));
  job_timeout =
      env_read parse.duration lookup_env (codes "IMAGEFORGE_JOB_TIMEOUT") (pos (120 * nanoseconds));
  seed_spec = record {
    width = env_int64 lookup_env (codes "IMAGEFORGE_SEED_WIDTH") (pos 640);
    height = pos 0;
    output = format_spec (env_text lookup_env (codes "IMAGEFORGE_SEED_FORMAT") (codes "jpeg"));
    quality = env_int64 lookup_env (codes "IMAGEFORGE_SEED_QUALITY") (pos 80);
    watermark = false;
    strip_metadata = true;
  };
  log_level = env_read parse.level lookup_env (codes "IMAGEFORGE_LOG_LEVEL") (pos 0);
}

seed_error : Text → Error → Error
seed_error path e = wrap (codes "seed " ++ quote path ++ codes ": ") e []

-- `seed`, over what os.Open makes of each path.
module _ {W : Type 0} (create_job : CreateJobInput → W → W × Option Job × Option Error)
    (open_file : Text → Result Bytes) (spec : TransformationSpec) where
  seed_file : Text → Result Bytes → W → W × Option Error
  unfolding seed_error
  seed_file path (err e) w = (w, some (seed_error path e))
  seed_file path (ok content) w =
      let (w', _, failure) = create_job (record { source = some content; spec = spec }) w in
      elim failure [ none ↦ (w', none) | some e ↦ (w', some (seed_error path e)) ]

  unfoldable pub seed : List Text → W → W × Option Error
  unfolding seed_file
  seed [] w = (w, none)
  seed (path ∷ paths) w =
      let (w', failure) = seed_file path (open_file path) w in
      elim failure [ none ↦ seed paths w' | some e ↦ (w', some e) ]

local : Text → Option (Text × Text) → Text
local addr none = addr
local addr (some (host, port)) =
    if text_eq host [] || text_eq host (codes "0.0.0.0") || text_eq host (codes "[::]")
    then codes "127.0.0.1:" ++ port
    else addr

-- `normalizeAddr` of the health check
unfoldable pub normalize_addr : Text → Text
unfolding local
normalize_addr given =
    let addr = trim_space given in
    if text_eq addr []
    then codes "127.0.0.1:8080"
    else if has_prefix (codes ":") addr
    then codes "127.0.0.1" ++ addr
    else local addr (cut b':' addr)
