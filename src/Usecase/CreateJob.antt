-- ===== src/Usecase/CreateJob.antt =====
-- internal/usecase/create_job.go. `execute` is `CreateJob.Execute`; `new_id` and `now` are the
-- generator and the clock, which read and advance the world.
pub mod Promise
use image_forge.Prelude.{ℕ, Option, none, some, [], ◌∷◌, ◌++◌, Text, codes}
use image_forge.Errors.{no_source, Error, sentinel, wrap, join_all}
use image_forge.Domain.Job.{pending, failed, Job}
use image_forge.Domain.Spec.{TransformationSpec, validate}
use image_forge.Ports.{Bytes, JobRepository, Storage, Queue}
use image_forge.Usecase.Keys.{original_key, result_key}

pub record CreateJobInput : Type 0 where
  -- none: no source image was given
  pub source : Option Bytes
  pub spec : TransformationSpec

-- The job that is persisted, for an id, a specification and the current time.
abbrev pub new_job : Text → TransformationSpec → ℕ → Job
new_job id spec t = record {
  id = id;
  original_key = original_key id;
  result_key = [];
  status = pending;
  transformation = spec;
  created_at = t;
  updated_at = t;
  error = [];
}

module _ {W : Type 0} (storage : Storage W) (jobs : JobRepository W) (queue : Queue W)
    (new_id : W → W × Text) (now : W → W × ℕ) where
  unfoldable pub marked : Error → W × Option Error → W × Option Job × Option Error
  marked enqueue_err (w, none) = (w, none, some enqueue_err)
  marked enqueue_err (w, some e) =
      (w, none, join_all (enqueue_err ∷ wrap (codes "mark failed: ") e [] ∷ []))

  unfoldable pub enqueued : Job → W × Option Error → W × Option Job × Option Error
  enqueued job (w, none) = (w, some job, none)
  enqueued job (w, some e) =
      let enqueue_err = wrap (codes "create job " ++ job.id ++ codes ": enqueue: ") e [] in
      marked enqueue_err (jobs.update_status job.id failed [] (some enqueue_err) w)

  unfoldable pub saved : Job → W × Option Error → W × Option Job × Option Error
  saved job (w, none) = enqueued job (queue.enqueue job.id w)
  saved job (w, some e) =
      (w, none, some (wrap (codes "create job " ++ job.id ++ codes ": save: ") e []))

  unfoldable pub stamped : Text → TransformationSpec → W × ℕ → W × Option Job × Option Error
  stamped id spec (w, t) = saved (new_job id spec t) (jobs.save (new_job id spec t) w)

  unfoldable pub uploaded :
      Text → TransformationSpec → W × Option Error → W × Option Job × Option Error
  uploaded id spec (w, none) = stamped id spec (now w)
  uploaded id spec (w, some e) =
      (w, none, some (wrap (codes "create job " ++ id ++ codes ": store original: ") e []))

  unfoldable pub named : Bytes → TransformationSpec → W × Text → W × Option Job × Option Error
  named src spec (w, id) = uploaded id spec (storage.put (original_key id) src w)

  unfoldable pub validated :
      Bytes → TransformationSpec → Option Error → W → W × Option Job × Option Error
  validated src spec none w = named src spec (new_id w)
  validated src spec (some e) w =
      (w, none, some (wrap (codes "create job: invalid transformation: ") e []))

  abbrev sourced : Option Bytes → TransformationSpec → W → W × Option Job × Option Error
  sourced none spec w = (w, none, some (sentinel no_source))
  sourced (some src) spec w = validated src spec (validate spec) w

  unfoldable pub execute : CreateJobInput → W → W × Option Job × Option Error
  execute input w = sourced input.source input.spec w
