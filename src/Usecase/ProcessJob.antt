-- ===== src/Usecase/ProcessJob.antt =====
-- internal/usecase/process_job.go. `execute` is `ProcessJob.Execute`: the job and the error that
-- it returns, with the world after its calls. A helper by clauses stands for each place where the
-- source looks at an error.
pub mod Lifecycle
pub mod Outcome
pub mod Completes
use image_forge.Prelude.{Option, none, some, [], ◌∷◌, ◌++◌, Text, codes}
use image_forge.Errors.{job_not_pending, Error, sentinel, wrap, message, join_all, Result, ok, err}
use image_forge.Domain.Job.{JobStatus, pending, processing, done, failed, status_text, Job}
use image_forge.Ports.{Bytes, JobRepository, Storage, ImageProcessor}
use image_forge.Usecase.Keys.{result_key}

module _ {W : Type 0} (storage : Storage W) (jobs : JobRepository W)
    (processor : ImageProcessor W) where
  stored_result : Text → W × Option Error → W × Result Text
  stored_result key (w, none) = (w, ok key)
  stored_result key (w, some e) = (w, err (wrap (codes "store result " ++ key ++ codes ": ") e []))

  transformed : Job → W × Result Bytes → W × Result Text
  unfolding stored_result
  transformed job (w, ok out) =
      let key = result_key job.id job.transformation in stored_result key (storage.put key out w)
  transformed job (w, err e) = (w, err (wrap (codes "transform: ") e []))

  opened : Job → W × Result Bytes → W × Result Text
  unfolding transformed
  opened job (w, ok src) = transformed job (processor.process src job.transformation w)
  opened job (w, err e) =
      (w, err (wrap (codes "read original " ++ job.original_key ++ codes ": ") e []))

  -- `ProcessJob.transform`: the key of the result, or what went wrong.
  unfoldable pub transform : Job → W → W × Result Text
  unfolding opened
  transform job w = opened job (storage.fetch job.original_key w)

  marked_failed : Job → Error → W × Option Error → W × Option Job × Option Error
  marked_failed job wrapped (w, none) =
      (w, some (record job { status = failed; error = message wrapped }), some wrapped)
  marked_failed job wrapped (w, some e) =
      (w, none, join_all (wrapped ∷ wrap (codes "mark failed: ") e [] ∷ []))

  -- `ProcessJob.fail`
  unfoldable pub fail : Job → Error → W → W × Option Job × Option Error
  unfolding marked_failed
  fail job e w =
      let wrapped = wrap (codes "process job " ++ job.id ++ codes ": ") e [] in
      marked_failed job wrapped (jobs.update_status job.id failed [] (some wrapped) w)

  marked_done : Text → Job → Text → W × Option Error → W × Option Job × Option Error
  marked_done id job key (w, none) =
      (w, some (record job { status = done; result_key = key; error = [] }), none)
  marked_done id job key (w, some e) =
      (w, none, some (wrap (codes "process job " ++ id ++ codes ": mark done: ") e []))

  unfoldable pub worked : Text → Job → W × Result Text → W × Option Job × Option Error
  unfolding marked_done
  worked id job (w, ok key) = marked_done id job key (jobs.update_status id done key none w)
  worked id job (w, err e) = fail job e w

  unfoldable pub claimed : Text → Job → W × Option Error → W × Option Job × Option Error
  claimed id job (w, none) =
      let job' = record job { status = processing } in worked id job' (transform job' w)
  claimed id job (w, some e) =
      (w, none, some (wrap (codes "process job " ++ id ++ codes ": claim: ") e []))

  -- The test `job.Status != domain.StatusPending`.
  unfoldable pub checked : Text → Job → JobStatus → W → W × Option Job × Option Error
  checked id job pending w = claimed id job (jobs.update_status id processing [] none w)
  checked id job s w = (
    w,
    some job,
    some (
        wrap (codes "process job " ++ id ++ codes ": ") (sentinel job_not_pending)
          (codes ": " ++ status_text s)),
  )

  unfoldable pub loaded : Text → W × Result Job → W × Option Job × Option Error
  loaded id (w, ok job) = checked id job job.status w
  loaded id (w, err e) =
      (w, none, some (wrap (codes "process job " ++ id ++ codes ": load: ") e []))

  unfoldable pub execute : Text → W → W × Option Job × Option Error
  execute id w = loaded id (jobs.get id w)
