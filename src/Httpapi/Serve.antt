-- ===== src/Httpapi/Serve.antt =====
-- internal/adapters/httpapi/api.go, auth.go, ratelimit.go: the routes with the middleware that
-- changes what a request does, requireAuth and rateLimit, around the handlers. chi's matching of a
-- path gives the route. The identifiers, headers, logs and traces of the other middleware, CORS and
-- the recovery from panics are left out; the form is what is left of a body under its size limit.

pub mod Guarded
use image_forge.Prelude.{ℕ, inl, inr, Option, some, ◌++◌, Text, codes, decimal, if◌then◌else◌}
use image_forge.Errors.{no_credentials, Error, is, Result, ok, err}
use image_forge.Domain.Job.{Job}
use image_forge.Ports.{Bytes, JobRepository}
use image_forge.Usecase.CreateJob.{CreateJobInput}
use image_forge.Httpapi.RateLimit.{
  Rate, Limiter, Decision, unauthorized, proceeds, limited, rate_limit,
}
use image_forge.Httpapi.Answers.{
  Problem, problem_base_uri, write_problem, SpecDto, Answer, handle_get_job, Health, handle_healthz,
  handle_readyz,
}
use image_forge.Httpapi.Auth.{Jwt, TokenIssuer, verify, bearer_token}
use image_forge.Httpapi.Upload.{
  Form, read_upload, UploadReply, handle_upload, TokenResponse, handle_token,
}

abbrev pub type_unauthorized : Text
type_unauthorized = problem_base_uri ++ codes "unauthorized"

abbrev pub type_rate_limited : Text
type_rate_limited = problem_base_uri ++ codes "rate-limited"

abbrev pub type_not_found : Text
type_not_found = problem_base_uri ++ codes "not-found"

abbrev pub type_method_not_allowed : Text
type_method_not_allowed = problem_base_uri ++ codes "method-not-allowed"

pub data Route : Type 0 where
  healthz readyz not_found method_not_allowed : Route
  token : Option (Text × Text) → Route
  uploads : Form → Route
  get_job : Text → Route

pub record Request : Type 0 where
  pub route : Route
  pub authorization : Text
  -- the instants that the issuer's and the limiter's clocks read
  pub now : ℕ

pub data Response : Type 0 where
  problem : Problem → Response
  -- a problem with a Retry-After
  retry : ℕ → Problem → Response
  health : Health → Response
  issued : TokenResponse → Response
  uploaded : UploadReply → Response
  answered : Answer → Response

pub record Api (W L : Type 0) : Type 0 where
  pub create_job : CreateJobInput → W → W × Option Job × Option Error
  pub jobs : JobRepository W
  pub jwt : Jwt
  pub issuer : TokenIssuer
  pub rate : Rate L
  -- the requests per second, as they are printed
  pub limit : Text
  pub public_base_url : Text
  pub max_upload_bytes : ℕ
  pub ready_check : Option (W → W × Option Error)
  pub ctx_err : W → Option Error
  -- http.DetectContentType and the JSON decoder
  pub detect : Bytes → Text
  pub decode : Text → Result SpecDto

pub record Site (W L : Type 0) : Type 0 where
  pub world : W
  pub limiter : Limiter L

unauthorized_problem : Error → Problem
unfolding write_problem
unauthorized_problem e = write_problem 401 type_unauthorized (codes "Unauthorized") (
    if is e no_credentials
    then codes "This endpoint requires a bearer token. Get one from POST /auth/token."
    else codes "The bearer token is missing, malformed or no longer valid.")

limited_problem : Text → ℕ → Problem
unfolding write_problem
limited_problem limit seconds = write_problem 429 type_rate_limited (codes "Too Many Requests") (
    codes "This client is over its budget of "
    ++ limit
    ++ codes " requests per second. Retry in "
    ++ decimal seconds
    ++ codes " second(s).")

module _ {W L : Type 0} (api : Api W L) where
  checked : Result Text → ℕ → Result Text
  checked (err e) now = err e
  checked (ok signed) now = verify api.jwt api.issuer signed now

  -- What `requireAuth` learns of a request: its client.
  unfoldable pub authenticated : Text → ℕ → Result Text
  unfolding checked
  authenticated header now = checked (bearer_token header) now

  decided : (W → W × Response) → Site W L → Limiter L × Decision → Site W L × Response
  unfolding limited_problem write_problem
  decided next s (l, unauthorized) = (
    record s { limiter = l },
    problem (
        write_problem 401 type_unauthorized (codes "Unauthorized")
          (codes "This endpoint requires a bearer token.")),
  )
  decided next s (l, limited seconds) =
      (record s { limiter = l }, retry seconds (limited_problem api.limit seconds))
  decided next s (l, proceeds) = let (w, r) = next s.world in (record { world = w; limiter = l }, r)

  -- `requireAuth` before `rateLimit` before a handler.
  guarded : (W → W × Response) → Result Text → ℕ → Site W L → Site W L × Response
  unfolding decided unauthorized_problem
  guarded next (err e) now s = (s, problem (unauthorized_problem e))
  guarded next (ok client) now s = decided next s (rate_limit api.rate (some client) now s.limiter)

  uploading : Form → W → W × Response
  uploading form w =
      let (w', r) =
        handle_upload api.create_job api.ctx_err api.public_base_url
          (read_upload api.detect api.decode api.max_upload_bytes form) w in
      (w', uploaded r)

  answering : Text → W → W × Response
  answering id w =
      let (w', r) = handle_get_job api.jobs api.public_base_url id w in (w', answered r)

  minting : Option (Text × Text) → ℕ → Response
  minting request now = elim (handle_token api.jwt api.issuer request now) [
    | inl p ↦ problem p
    | inr t ↦ issued t
  ]

  routed : Route → Text → ℕ → Site W L → Site W L × Response
  unfolding guarded uploading answering minting write_problem handle_readyz
  routed healthz header now s = (s, health handle_healthz)
  routed readyz header now s =
      let (w, r) = handle_readyz api.ready_check s.world in (record s { world = w }, health r)
  routed (token request) header now s = (s, minting request now)
  routed (uploads form) header now s = guarded (uploading form) (authenticated header now) now s
  routed (get_job id) header now s = guarded (answering id) (authenticated header now) now s
  routed not_found header now s = (
    s,
    problem (
        write_problem 404 type_not_found (codes "Not Found") (codes "No route matches this path.")),
  )
  routed method_not_allowed header now s = (
    s,
    problem (
        write_problem 405 type_method_not_allowed (codes "Method Not Allowed")
          (codes "This method is not allowed on this path.")),
  )

  -- One request through `routes`.
  unfoldable pub serve : Request → Site W L → Site W L × Response
  unfolding routed
  serve r s = routed r.route r.authorization r.now s
