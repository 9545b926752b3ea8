-- ===== src/Httpapi/Upload.antt =====
-- internal/adapters/httpapi/handlers.go: POST /uploads and POST /auth/token. What net/http's
-- multipart parser and encoding/json make of a request is given: a parsed form, and a decoder of
-- the specification that refuses unknown fields.
pub mod Accepted
pub mod Fulfilled
use image_forge.Prelude.{
  ℕ, ◌/◌, ◌⊎◌, inl, inr, not, Option, none, some, List, [], ◌∷◌, ◌++◌, Text, codes, text_eq,
  decimal, trim_space, ltb, if◌then◌else◌, length,
}
use image_forge.Errors.{unsupported_media_type, Error, is, message, Result, ok, err}
use image_forge.Domain.Job.{Job}
use image_forge.Domain.Spec.{TransformationSpec, quote}
use image_forge.Ports.{Bytes}
use image_forge.Usecase.CreateJob.{CreateJobInput}
use image_forge.Httpapi.Answers.{
  Problem, problem_base_uri, type_missing_file, type_internal, write_problem,
  write_use_case_problem, SpecDto, dto_domain, JobResponse, new_job_response,
}
use image_forge.Httpapi.Media.{allowed_media_types, allowed_media_type, sniff_media_type}
use image_forge.Httpapi.Auth.{Jwt, TokenIssuer, authorize, issue}

abbrev pub file_field : Text
file_field = codes "file"

abbrev pub spec_field : Text
spec_field = codes "spec"

-- 8 KB
abbrev pub max_spec_bytes : ℕ
max_spec_bytes = 8192

abbrev pub type_invalid_multipart : Text
type_invalid_multipart = problem_base_uri ++ codes "invalid-multipart"

abbrev pub type_invalid_spec : Text
type_invalid_spec = problem_base_uri ++ codes "invalid-spec"

abbrev pub type_unsupported_media : Text
type_unsupported_media = problem_base_uri ++ codes "unsupported-media-type"

abbrev pub type_payload_too_large : Text
type_payload_too_large = problem_base_uri ++ codes "payload-too-large"

abbrev pub type_invalid_credential : Text
type_invalid_credential = problem_base_uri ++ codes "invalid-credentials"

pub data FormError : Type 0 where
  too_large malformed : FormError

-- The "file" part: its name, its content, and the error that reading its start gives, if it does.
pub record FilePart : Type 0 where
  pub filename : Text
  pub failure : Option Error
  pub content : Bytes

pub record Form : Type 0 where
  pub parse_error : Option FormError
  pub file : Option FilePart
  -- the "spec" part, empty if there is none
  pub spec : Text

bad_request : Text → Text → Problem
unfolding write_problem
bad_request kind detail = write_problem 400 kind (codes "Bad Request") detail

unsupported : Text → Problem
unfolding write_problem
unsupported detail =
    write_problem 415 type_unsupported_media (codes "Unsupported Media Type") detail

comma_separated : List Text → Text
comma_separated [] = []
comma_separated (t ∷ []) = t
comma_separated (t ∷ u ∷ ts) = t ++ codes ", " ++ comma_separated (u ∷ ts)

sniffed : FilePart → Result (Text × Bytes) → Problem ⊎ Bytes
unfolding bad_request unsupported comma_separated
sniffed file (err e) = inl (
    if is e unsupported_media_type
    then unsupported (codes "The uploaded file is empty.")
    else bad_request type_invalid_multipart (codes "The uploaded file could not be read."))
sniffed file (ok (media_type, rewound)) =
    if allowed_media_type media_type
    then inr rewound
    else inl (
        unsupported (
          quote file.filename
          ++ codes " is "
          ++ media_type
          ++ codes ", which is not an accepted image type. Accepted types are "
          ++ comma_separated allowed_media_types
          ++ codes "."))

decoded : Result SpecDto → Problem ⊎ TransformationSpec
unfolding bad_request dto_domain
decoded (err e) = inl (
    bad_request type_invalid_spec (
      codes "The "
      ++ quote spec_field
      ++ codes " part is not a valid transformation: "
      ++ message e))
decoded (ok dto) = inr (dto_domain dto)

module _ (detect : Bytes → Text) (decode : Text → Result SpecDto) (max_upload_bytes : ℕ) where
  -- `checkMediaType`: what the rest of the handler reads of the file.
  unfoldable pub check_media_type : FilePart → Problem ⊎ Bytes
  unfolding sniffed sniff_media_type
  check_media_type file = sniffed file (sniff_media_type detect file.failure file.content)

  -- `readSpec`
  unfoldable pub read_spec : Text → Problem ⊎ TransformationSpec
  unfolding bad_request decoded
  read_spec raw =
      if text_eq raw []
      then inl (
          bad_request type_invalid_spec (
            codes "The "
            ++ quote spec_field
            ++ codes " part is required and must carry a JSON transformation."))
      else if ltb max_spec_bytes (length raw)
      then inl (
          bad_request type_invalid_spec (
            codes "The "
            ++ quote spec_field
            ++ codes " part exceeds "
            ++ decimal max_spec_bytes
            ++ codes " bytes."))
      else decoded (decode raw)

  with_spec : Bytes → Problem ⊎ TransformationSpec → Problem ⊎ (TransformationSpec × Bytes)
  with_spec content (inl p) = inl p
  with_spec content (inr spec) = inr (spec, content)

  with_content : Text → Problem ⊎ Bytes → Problem ⊎ (TransformationSpec × Bytes)
  unfolding with_spec
  with_content raw (inl p) = inl p
  with_content raw (inr content) = with_spec content (read_spec raw)

  with_file : Text → Option FilePart → Problem ⊎ (TransformationSpec × Bytes)
  unfolding with_content bad_request
  with_file raw none = inl (
      bad_request type_missing_file
        (codes "The " ++ quote file_field ++ codes " part is required and must carry the image."))
  with_file raw (some file) = with_content raw (check_media_type file)

  with_form : Form → Option FormError → Problem ⊎ (TransformationSpec × Bytes)
  unfolding with_file bad_request write_problem
  with_form form none = with_file form.spec form.file
  with_form form (some too_large) = inl (
      write_problem 413 type_payload_too_large (codes "Payload Too Large")
        (codes "The request body exceeds the " ++ decimal max_upload_bytes ++ codes " byte limit."))
  with_form form (some malformed) =
      inl (
        bad_request type_invalid_multipart
          (codes "The request body is not a valid multipart form."))

  -- `readUpload`
  unfoldable pub read_upload : Form → Problem ⊎ (TransformationSpec × Bytes)
  unfolding with_form
  read_upload form = with_form form form.parse_error

-- 202 with the job and where it is, or a problem.
pub data UploadReply : Type 0 where
  refused : Problem → UploadReply
  accepted : Text → JobResponse → UploadReply

module _ {W : Type 0} (create_job : CreateJobInput → W → W × Option Job × Option Error)
    (ctx_err : W → Option Error) (public_base_url : Text) where
  -- A use case without an error returns a job.
  unfoldable pub replied : W × Option Job × Option Error → W × UploadReply
  unfolding write_use_case_problem new_job_response write_problem
  replied (w, job, some e) = (w, refused (write_use_case_problem (ctx_err w) e))
  replied (w, some job, none) =
      (w, accepted (codes "/jobs/" ++ job.id) (new_job_response public_base_url job))
  replied (w, none, none) = (
    w,
    refused (
        write_problem 500 type_internal (codes "Internal Server Error")
          (codes "The server encountered an unexpected condition.")),
  )

  -- `handleUpload`, of what `readUpload` gives.
  unfoldable pub handle_upload : Problem ⊎ (TransformationSpec × Bytes) → W → W × UploadReply
  unfolding replied
  handle_upload (inl p) w = (w, refused p)
  handle_upload (inr (spec, content)) w =
      replied (create_job (record { source = some content; spec = spec }) w)

pub record TokenResponse : Type 0 where
  pub access_token : Text
  pub token_type : Text
  pub expires_in : ℕ

minted : TokenIssuer → Result Text → Problem ⊎ TokenResponse
unfolding write_problem
minted i (err e) = inl (
    write_problem 500 type_internal (codes "Internal Server Error")
      (codes "The token could not be issued."))
minted i (ok token) =
    inr (record {
      access_token = token;
      token_type = codes "Bearer";
      expires_in = i.ttl / 1000000000;
    })

-- `handleToken`, at an instant; no request is a body that is not the expected JSON.
unfoldable pub handle_token : Jwt → TokenIssuer → Option (Text × Text) → ℕ → Problem ⊎ TokenResponse
unfolding bad_request minted write_problem authorize
handle_token jwt i none now = inl (
    bad_request type_invalid_spec (
      codes
        "The body must be JSON with a \"client_id\", and a \"client_secret\" when the server requires one."))
handle_token jwt i (some (name, secret)) now =
    let client_id = trim_space name in
    if text_eq client_id []
    then inl (bad_request type_invalid_spec (codes "\"client_id\" is required."))
    else if ltb 128 (length client_id)
    then inl
        (bad_request type_invalid_spec (codes "\"client_id\" must be 128 characters or fewer."))
    else if not (authorize i client_id secret)
    then inl (
        write_problem 401 type_invalid_credential (codes "Unauthorized")
          (codes "The client id or secret is not recognized."))
    else minted i (issue jwt i client_id now)
