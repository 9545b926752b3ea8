-- ===== src/Ports.antt =====
-- internal/ports/ports.go: the interfaces between the use cases and the adapters.
-- A port method acts on a world `W`, which holds whatever the adapter, the clock and the request's
-- context hold; so a context may be cancelled between any two calls. A reader is its content.
use image_forge.Prelude.{ℕ, ◌≡◌, Option, none, some, List, [], ◌∷◌, Text, text_eq, if◌then◌else◌}
use image_forge.Errors.{Error, message, Result, ok}
use image_forge.Domain.Job.{JobStatus, Job}
use image_forge.Domain.Spec.{TransformationSpec}

abbrev pub Bytes : Type 0
Bytes = List ℕ

pub record JobRepository (W : Type 0) : Type 0 where
  pub save : Job → W → W × Option Error
  pub get : Text → W → W × Result Job
  -- the id, the new status, the result key (empty: keep), the failure (none: clear)
  pub update_status : Text → JobStatus → Text → Option Error → W → W × Option Error

pub record Storage (W : Type 0) : Type 0 where
  pub put : Text → Bytes → W → W × Option Error
  pub fetch : Text → W → W × Result Bytes

pub record Queue (W : Type 0) : Type 0 where
  pub enqueue : Text → W → W × Option Error

pub record ImageProcessor (W : Type 0) : Type 0 where
  pub process : Bytes → TransformationSpec → W → W × Result Bytes

abbrev pub error_text : Option Error → Text
error_text none = []
error_text (some e) = message e

-- What `UpdateStatus` writes, by the port's contract, at the instant `t`.
abbrev pub transition : JobStatus → Text → Option Error → ℕ → Job → Job
transition status key failure t job = record job {
  status = status;
  updated_at = t;
  result_key = elim key [ [] ↦ job.result_key | c ∷ cs ↦ c ∷ cs ];
  error = error_text failure;
}

-- The contract of `JobRepository`, over the jobs that a world stores: a read changes nothing and
-- reads what is stored, a write that succeeds writes its job alone, a call that fails changes
-- nothing.
pub record RepositoryLaws {W : Type 0} (repo : JobRepository W) : Type 0 where
  pub stored : W → Text → Option Job
  pub get_keeps : (id j : Text) (w : W) → stored (repo.get id w).0 j ≡ stored w j
  pub get_reads :
      (id : Text) (w : W) (job : Job) → (repo.get id w).1 ≡ ok job → stored w id ≡ some job
  pub save_writes :
      (job : Job) (j : Text) (w : W)
      → (repo.save job w).1 ≡ none
      → stored (repo.save job w).0 j ≡ (if text_eq job.id j then some job else stored w j)
  pub save_fails :
      (job : Job) (j : Text) (w : W) (e : Error)
      → (repo.save job w).1 ≡ some e
      → stored (repo.save job w).0 j ≡ stored w j
  pub update_writes :
      (id : Text) (s : JobStatus) (key : Text) (f : Option Error) (w : W)
      → (repo.update_status id s key f w).1 ≡ none
      → (job : Job) × (t : ℕ) × (stored w id ≡ some job)
        × ((j : Text)
            → stored (repo.update_status id s key f w).0 j
              ≡ (if text_eq id j then some (transition s key f t job) else stored w j))
  pub update_fails :
      (id : Text) (s : JobStatus) (key : Text) (f : Option Error) (j : Text) (w : W) (e : Error)
      → (repo.update_status id s key f w).1 ≡ some e
      → stored (repo.update_status id s key f w).0 j ≡ stored w j

-- A storage whose calls leave the stored jobs alone, and a processor that does.
pub record StorageLeaves {W : Type 0} (stored : W → Text → Option Job) (storage : Storage W)
    : Type 0 where
  pub put_keeps :
      (key : Text) (content : Bytes) (j : Text) (w : W)
      → stored (storage.put key content w).0 j ≡ stored w j
  pub fetch_keeps : (key : Text) (j : Text) (w : W) → stored (storage.fetch key w).0 j ≡ stored w j

pub record ProcessorLeaves {W : Type 0} (stored : W → Text → Option Job)
    (processor : ImageProcessor W) : Type 0 where
  pub process_keeps :
      (src : Bytes) (spec : TransformationSpec) (j : Text) (w : W)
      → stored (processor.process src spec w).0 j ≡ stored w j
