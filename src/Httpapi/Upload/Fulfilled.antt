-- ===== src/Httpapi/Upload/Fulfilled.antt =====
-- From the upload of an image to its result: handleCreateJob before a worker's run, and handleGetJob
-- after it.
use image_forge.Httpapi.Upload
use image_forge.Httpapi.Upload.{handle_upload}
use image_forge.Httpapi.Upload.Accepted.{handle_upload-Named}
use image_forge.Httpapi.Finished.{IsFinished, get_job-IsFinished}
use image_forge.Httpapi.Answers.{JobResponse, shown, handle_get_job}
use image_forge.Usecase.ProcessJob.{execute}
use image_forge.Usecase.ProcessJob.Completes.{Answers}
use image_forge.Usecase.CreateJob.{new_job}
use image_forge.Usecase.CreateJob
use image_forge.Prelude.{ℕ, ◌≡◌, refl, ap, ◌∙◌, ◌≢◌, inr, Option, ◌++◌, Text, codes}
use image_forge.Errors.{Error}
use image_forge.Domain.Spec.{TransformationSpec}
use image_forge.Ports.{
  Bytes, JobRepository, Storage, Queue, ImageProcessor, RepositoryLaws, StorageLeaves,
  ProcessorLeaves,
}

module _ {W : Type 0} (storage : Storage W) (jobs : JobRepository W) (queue : Queue W)
    (processor : ImageProcessor W) (new_id : W → W × Text) (now : W → W × ℕ)
    (laws : RepositoryLaws jobs) (ctx_err : W → Option Error) (public_base_url : Text)
    (leaves : StorageLeaves laws.stored storage) (quiet : ProcessorLeaves laws.stored processor)
    (queue_leaves : (id j : Text) (w : W) → laws.stored (queue.enqueue id w).0 j ≡ laws.stored w j)
    (id_leaves : (j : Text) (w : W) → laws.stored (new_id w).0 j ≡ laws.stored w j)
    (clock_leaves : (j : Text) (w : W) → laws.stored (now w).0 j ≡ laws.stored w j)
    {live : Text → W → Type 0} {readable : Bytes → Type 0} (spec : TransformationSpec)
    (answers : (id : Text) (at : ℕ)
      → Answers storage jobs processor laws.stored id (new_job id spec at) (live id) readable) where
  -- The job that a location names is run by a worker, and a client that asks for it then is shown
  -- its result.
  abbrev pub Fulfilled : Text → W → Type 0
  Fulfilled location w =
      (id : Text) × (at : ℕ) × (r : JobResponse) × (location ≡ codes "/jobs/" ++ id)
      × IsFinished public_base_url id (new_job id spec at) r
      × ((handle_get_job jobs public_base_url id (execute storage jobs processor id w).0).1
          ≡ shown r)

  -- An upload that is answered with 202 is fulfilled: once a worker has run the job that its
  -- location names, a client that asks for the job is shown that it is done, with the key of its
  -- result, the address of that where there is a base address, and no failure. The repository keeps
  -- its laws, the other ports, the generator and the clock leave the stored jobs alone, the location
  -- is not without an id, and from the world after the upload on the worker's calls are answered as
  -- `Answers` says, the processor's for what is readable, which what is fetched is.
  pub handle_upload-Fulfilled :
      (content : Bytes) (w w' : W) (location : Text) (response : JobResponse)
      → handle_upload
          (CreateJob.execute storage jobs queue new_id now)
          ctx_err
          public_base_url
          (inr (spec, content))
          w
        ≡ (w', Upload.accepted location response)
      → location ≢ codes "/jobs/"
      → ((id : Text) → location ≡ codes "/jobs/" ++ id → live id w')
      → Fulfilled location w'
  handle_upload-Fulfilled content w w' location response h given l =
      let (id, at, located, _, _, there) =
        handle_upload-Named storage jobs queue new_id now laws ctx_err public_base_url leaves
          queue_leaves id_leaves clock_leaves spec content w w' location response h in
      let (r, finished, seen) =
        get_job-IsFinished storage jobs processor laws leaves quiet id (new_job id spec at)
          (answers id at) public_base_url w'
          (λ x. given (located ∙ ap (λ y. codes "/jobs/" ++ y) x)) (l id located) there refl refl in
      (id, at, r, located, finished, seen)
