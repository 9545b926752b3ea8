-- ===== src/Httpapi/Answers.antt =====
-- internal/adapters/httpapi/handlers.go, problem.go: how a failure of a use case and a job are
-- answered. A request's identifiers, the log and the JSON text are left out: an answer is the
-- problem detail or the value that is encoded.
use image_forge.Prelude.{
  ℕ, Bool, not, ◌&&◌, ◌||◌, Option, none, some, [], ◌++◌, Text, codes, text_eq, if◌then◌else◌, ℤ,
}
use image_forge.Errors.{
  invalid_dimensions, invalid_format, invalid_quality, job_not_found, no_source, Error, is, message,
  Result, ok, err,
}
use image_forge.Domain.Job.{status_text, Job}
use image_forge.Domain.Spec.{format as format_spec, format_text, TransformationSpec, quote}
use image_forge.Ports.{JobRepository}

pub record Problem : Type 0 where
  pub kind : Text
  pub title : Text
  pub status : ℕ
  pub detail : Text

abbrev pub problem_base_uri : Text
problem_base_uri = codes "https://imageforge.dev/problems/"

abbrev pub type_invalid_transform : Text
type_invalid_transform = problem_base_uri ++ codes "invalid-transformation"

abbrev pub type_missing_file : Text
type_missing_file = problem_base_uri ++ codes "missing-file"

abbrev pub type_job_not_found : Text
type_job_not_found = problem_base_uri ++ codes "job-not-found"

abbrev pub type_internal : Text
type_internal = problem_base_uri ++ codes "internal-error"

unfoldable pub write_problem : ℕ → Text → Text → Text → Problem
write_problem status kind title detail = record {
  kind = kind;
  title = title;
  status = status;
  detail = detail;
}

-- The error of CreateJob as a problem, where `ctx_err` is the request's context's error.
unfoldable pub write_use_case_problem : Option Error → Error → Problem
unfolding write_problem
write_use_case_problem ctx_err e =
    if is e invalid_dimensions || is e invalid_format || is e invalid_quality
    then write_problem 400 type_invalid_transform (codes "Bad Request") (message e)
    else if is e no_source
    then write_problem 400 type_missing_file (codes "Bad Request") (message e)
    else elim ctx_err [
      | some _ ↦
          write_problem 408 type_internal (codes "Request Timeout")
            (codes "The request was canceled.")
      | none ↦
          write_problem 500 type_internal (codes "Internal Server Error")
            (codes "The job could not be created.")
    ]

-- The JSON shape of a transformation.
pub record SpecDto : Type 0 where
  pub width : ℤ
  pub height : ℤ
  pub format : Text
  pub quality : ℤ
  pub watermark : Bool
  pub strip_metadata : Bool

unfoldable pub dto_domain : SpecDto → TransformationSpec
dto_domain dto = record {
  width = dto.width;
  height = dto.height;
  output = format_spec dto.format;
  quality = dto.quality;
  watermark = dto.watermark;
  strip_metadata = dto.strip_metadata;
}

unfoldable pub spec_from_domain : TransformationSpec → SpecDto
spec_from_domain spec = record {
  width = spec.width;
  height = spec.height;
  format = format_text spec.output;
  quality = spec.quality;
  watermark = spec.watermark;
  strip_metadata = spec.strip_metadata;
}

pub record JobResponse : Type 0 where
  pub id : Text
  pub status : Text
  pub transformation : SpecDto
  pub created_at : ℕ
  pub updated_at : ℕ
  pub result_key : Text
  pub result_url : Text
  pub error : Text

unfoldable pub new_job_response : Text → Job → JobResponse
unfolding spec_from_domain
new_job_response public_base_url job = record {
  id = job.id;
  status = status_text job.status;
  transformation = spec_from_domain job.transformation;
  created_at = job.created_at;
  updated_at = job.updated_at;
  result_key = job.result_key;
  result_url =
      if not (text_eq job.result_key []) && not (text_eq public_base_url [])
      then public_base_url ++ codes "/" ++ job.result_key
      else [];
  error = job.error;
}

pub data Answer : Type 0 where
  refused : Problem → Answer
  shown : JobResponse → Answer

job_answer : Text → Text → Result Job → Answer
unfolding write_problem new_job_response
job_answer public_base_url id (ok job) = shown (new_job_response public_base_url job)
job_answer public_base_url id (err e) = refused (
    if is e job_not_found
    then write_problem 404 type_job_not_found (codes "Not Found")
        (codes "No job with id " ++ quote id ++ codes ".")
    else write_problem 500 type_internal (codes "Internal Server Error")
        (codes "The job could not be loaded."))

-- `handleGetJob`
unfoldable pub handle_get_job : {W : Type 0} → JobRepository W → Text → Text → W → W × Answer
unfolding job_answer write_problem
handle_get_job jobs public_base_url id w =
    if text_eq id []
    then (
      w,
      refused (
          write_problem 400 type_job_not_found (codes "Bad Request")
            (codes "A job id is required.")),
    )
    else (let (w', r) = jobs.get id w in (w', job_answer public_base_url id r))

abbrev pub type_not_ready : Text
type_not_ready = problem_base_uri ++ codes "not-ready"

-- The `status` that a health endpoint answers with 200, or a problem.
pub data Health : Type 0 where
  healthy : Text → Health
  unhealthy : Problem → Health

-- `handleHealthz`
unfoldable pub handle_healthz : Health
handle_healthz = healthy (codes "ok")

readiness : Option Error → Health
unfolding write_problem
readiness none = healthy (codes "ready")
readiness (some e) = unhealthy (
    write_problem 503 type_not_ready (codes "Service Unavailable")
      (codes "The service is not ready."))

-- `handleReadyz`, with the configured check, if there is one.
unfoldable pub handle_readyz : {W : Type 0} → Option (W → W × Option Error) → W → W × Health
unfolding readiness write_problem
handle_readyz none w = (w, healthy (codes "ready"))
handle_readyz (some ready_check) w = let (w', e) = ready_check w in (w', readiness e)
