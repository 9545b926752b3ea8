-- ===== src/Domain/Job.antt =====
-- internal/domain/job.go. `JobStatus` is a string type there: `other` holds a string that is none
-- of the four constants, and `job_status` is the conversion from a string. An instant is a number.
use image_forge.Prelude.{
  ℕ, ◌≡◌, Bool, true, false, arith, Text, codes, text_eq-eq, text_eq, if◌then◌else◌,
}
use image_forge.Domain.Spec.{TransformationSpec}

pub data JobStatus : Type 0 where
  pending processing done failed : JobStatus
  other : Text → JobStatus

-- `domain.JobStatus(s)`
unfoldable pub job_status : Text → JobStatus
job_status s =
    if text_eq s (codes "pending")
    then pending
    else if text_eq s (codes "processing")
    then processing
    else if text_eq s (codes "done")
    then done
    else if text_eq s (codes "failed")
    then failed
    else other s

unfoldable pub status_text : JobStatus → Text
status_text pending = codes "pending"
status_text processing = codes "processing"
status_text done = codes "done"
status_text failed = codes "failed"
status_text (other s) = s

unfoldable pub valid_status : JobStatus → Bool
valid_status pending = true
valid_status processing = true
valid_status done = true
valid_status failed = true
valid_status (other s) = false

unfoldable pub terminal : JobStatus → Bool
terminal done = true
terminal failed = true
terminal _ = false

pub record Job : Type 0 where
  pub id : Text
  pub original_key : Text
  pub result_key : Text
  pub status : JobStatus
  pub transformation : TransformationSpec
  pub created_at : ℕ
  pub updated_at : ℕ
  pub error : Text

-- A conversion and its inverse: no string is lost.
pub status_text-job_status : (s : Text) → status_text (job_status s) ≡ s
unfolding status_text job_status
status_text-job_status s = ground (
  arith,
  text_eq-eq s (codes "pending"),
  text_eq-eq s (codes "processing"),
  text_eq-eq s (codes "done"),
  text_eq-eq s (codes "failed"),
)
