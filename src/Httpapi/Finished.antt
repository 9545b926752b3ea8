-- ===== src/Httpapi/Finished.antt =====
-- What a client is shown of its job once a worker has run it: `ProcessJob.Execute` of
-- internal/usecase/process_job.go before handleGetJob of internal/adapters/httpapi/handlers.go.
use image_forge.Usecase.ProcessJob.Outcome.{Evolves, execute-Evolves}
use image_forge.Prelude.{
  ◌≡◌, ap, ◌≢◌, ◌⊎◌, some, [], ◌++◌, arith, Text, codes, text_eq-eq, text_eq_iff,
}
use image_forge.Domain.Job.{pending, done, status_text, Job}
use image_forge.Ports.{
  Bytes, JobRepository, Storage, ImageProcessor, RepositoryLaws, StorageLeaves, ProcessorLeaves,
}
use image_forge.Usecase.Keys.{result_key, result_key-ne-nil}
use image_forge.Usecase.ProcessJob.{execute}
use image_forge.Usecase.ProcessJob.Completes.{Answers, execute-completes}
use image_forge.Httpapi.Answers.{JobResponse, new_job_response, shown, handle_get_job}

-- What a client is shown of job `b` when it is done.
pub record IsFinished (base id : Text) (b : Job) (r : JobResponse) : Type 0 where
  pub same_id : r.id ≡ id
  pub is_done : r.status ≡ codes "done"
  pub named : r.result_key ≡ result_key b.id b.transformation
  pub linked : (base ≡ []) ⊎ (r.result_url ≡ base ++ codes "/" ++ result_key b.id b.transformation)
  pub no_failure : r.error ≡ []

module _ {W : Type 0} (storage : Storage W) (jobs : JobRepository W) (processor : ImageProcessor W)
    (laws : RepositoryLaws jobs) (leaves : StorageLeaves laws.stored storage)
    (quiet : ProcessorLeaves laws.stored processor) (id : Text) (b : Job) {live : W → Type 0}
    {readable : Bytes → Type 0}
    (answers : Answers storage jobs processor laws.stored id b live readable) where
  response-IsFinished :
      (base : Text) (a : Job)
      → a.id ≡ id
      → a.status ≡ done
      → a.result_key ≡ result_key b.id b.transformation
      → a.error ≡ []
      → IsFinished base id b (new_job_response base a)
  unfolding new_job_response status_text
  response-IsFinished base a i s k e = record {
    same_id = i;
    is_done = ap status_text s;
    named = k;
    linked = ground (
      arith,
      k,
      text_eq_iff a.result_key [],
      text_eq_iff base [],
      result_key-ne-nil b.id b.transformation,
    );
    no_failure = e;
  }

  get_job-stored :
      (base : Text) (a : Job) (w : W)
      → id ≢ []
      → live w
      → laws.stored w id ≡ some a
      → (handle_get_job jobs base id w).1 ≡ shown (new_job_response base a)
  unfolding handle_get_job
  get_job-stored base a w given l at =
      ground (arith, answers.get_answers w a l at, text_eq-eq id [])

  evolved-id : (a : Job) → b.id ≡ id → Evolves (some b) (some a) → a.id ≡ id
  evolved-id a own (c, e, i, _, _, _, _) = ground (arith, e, i, own)

  -- Once a worker has run a stored pending job, with its calls answered as `Answers` says and ports
  -- that keep their laws, a client that asks for the job is shown that it is done, with the key of
  -- its result, the address of that where there is a base address, and no failure.
  pub get_job-IsFinished :
      (base : Text) (w : W)
      → id ≢ []
      → live w
      → laws.stored w id ≡ some b
      → b.status ≡ pending
      → b.id ≡ id
      → (r : JobResponse) × IsFinished base id b r
        × ((handle_get_job jobs base id (execute storage jobs processor id w).0).1 ≡ shown r)
  get_job-IsFinished base w given l at pend own =
      let run = execute storage jobs processor id w in
      let (_, l', finished) =
        execute-completes storage jobs processor laws leaves quiet id b answers w l at pend own in
      let (b', a, was, _, there, is_done, key, clear, _) = finished in
      let same : b' ≡ b = ground arith in
      let evolves : Evolves (some b) (some a) =
        rw (at, there) at
          (execute-Evolves storage jobs processor laws leaves quiet id id w
            (λ c h. ground (arith, h, at, own))) in
      (
        new_job_response base a,
        response-IsFinished base a (evolved-id a own evolves) is_done (rw same at key) clear,
        get_job-stored base a run.0 given l' there,
      )
