-- ===== src/Httpapi/Upload/Accepted.antt =====
-- What an accepted upload promises to a client that asks for its job.
use image_forge.Usecase.CreateJob.Promise.{
  Jobs, Created, rejected, accepted, withdrawn, orphaned, execute-Created,
}
use image_forge.Httpapi.Upload
use image_forge.Httpapi.Upload.{replied, handle_upload}
use image_forge.Prelude.{
  ℕ, ◌≡◌, sym, ap, ◌∙◌, ◌⊎◌, inl, inr, Option, none, some, [], ◌++◌, arith, Text, codes,
  text_eq_refl, text_eq-eq, text_eq, Bool-cases,
}
use image_forge.Errors.{Error, ok, err, Result-cases}
use image_forge.Domain.Job.{Job}
use image_forge.Domain.Spec.{TransformationSpec}
use image_forge.Ports.{Bytes, JobRepository, Storage, Queue, RepositoryLaws, StorageLeaves}
use image_forge.Usecase.CreateJob.{new_job, execute}
use image_forge.Httpapi.Answers.{JobResponse, new_job_response, shown, handle_get_job}

-- The job that an answer with a location names: it is pending with the specification that was
-- sent, its id was put on the queue, and a read of it shows what the answer showed, unless the
-- repository fails or the generator gave an empty id.
pub record IsPromised {W : Type 0} (jobs : JobRepository W) (queue : Queue W)
    (public_base_url : Text) (spec : TransformationSpec) (w : W) (location : Text)
    (response : JobResponse) : Type 0 where
  pub id : Text
  pub at : ℕ
  pub located : location ≡ codes "/jobs/" ++ id
  pub shows : response ≡ new_job_response public_base_url (new_job id spec at)
  pub queued : (v : W) × (queue.enqueue id v ≡ (w, none))
  pub reads :
      (id ≡ [])
      ⊎ ((e : Error) × ((jobs.get id w).1 ≡ err e))
      ⊎ ((handle_get_job jobs public_base_url id w).1 ≡ shown response)

module _ {W : Type 0} (jobs : JobRepository W) (public_base_url : Text) where
  get_job-shown :
      (id : Text) (job : Job) (response : JobResponse) (w : W)
      → new_job_response public_base_url job ≡ response
      → ((j : Job) → (jobs.get id w).1 ≡ ok j → j ≡ job)
      → (id ≡ [])
        ⊎ ((e : Error) × ((jobs.get id w).1 ≡ err e))
        ⊎ ((handle_get_job jobs public_base_url id w).1 ≡ shown response)
  unfolding handle_get_job
  get_job-shown id job response w shows h = elim (Bool-cases (text_eq id [])) [
    | inl t ↦ inl (text_eq-eq id [] t)
    | inr f ↦ elim (Result-cases (jobs.get id w).1) [
      | inr (e, q) ↦ inr (inl (e, q))
      | inl (j, q) ↦ inr (inr (ground (arith, h j q)))
    ]
  ]

module _ {W : Type 0} (storage : Storage W) (jobs : JobRepository W) (queue : Queue W)
    (new_id : W → W × Text) (now : W → W × ℕ) (laws : RepositoryLaws jobs)
    (ctx_err : W → Option Error) (public_base_url : Text) where
  -- The stored job that an answer with a location names.
  abbrev pub Named : TransformationSpec → W → Text → JobResponse → Type 0
  Named spec w location response =
      (id : Text) × (at : ℕ) × (location ≡ codes "/jobs/" ++ id)
      × (response ≡ new_job_response public_base_url (new_job id spec at))
      × ((v : W) × (queue.enqueue id v ≡ (w, none)))
      × (laws.stored w id ≡ some (new_job id spec at))

  replied-Named :
      (spec : TransformationSpec) (before : Jobs) (r : W × Option Job × Option Error) (w : W)
      (location : Text) (response : JobResponse)
      → Created queue spec before laws.stored r.0 r.1 r.2
      → replied (execute storage jobs queue new_id now) ctx_err public_base_url r
        ≡ (w, Upload.accepted location response)
      → Named spec w location response
  unfolding replied
  replied-Named spec before (v, job, some e) w location response c h = absurd (ground arith)
  replied-Named spec before (v, none, none) w location response c h = absurd (ground arith)
  replied-Named spec before (v, some job, none) w location response c h = elim c [
    | rejected e q _ _ ↦ absurd (ground arith)
    | withdrawn _ _ _ _ q _ _ ↦ absurd (ground arith)
    | orphaned _ _ _ _ q _ _ ↦ absurd (ground arith)
    | accepted id t u q _ there sent ↦
        let same : v ≡ w = ap (λ p. p.0) h in
        let own : job ≡ new_job id spec t = ground arith in
        let at_location : codes "/jobs/" ++ job.id ≡ location = ground arith in
        let shows : new_job_response public_base_url job ≡ response = ground arith in
        (
          id,
          t,
          sym at_location ∙ ap (λ (j : Job). codes "/jobs/" ++ j.id) own,
          sym shows ∙ ap (new_job_response public_base_url) own,
          (u, sent ∙ ap (λ x. (x, none)) same),
          ground (arith, there id, text_eq_refl id, ap (λ x. laws.stored x id) same),
        )
  ]

  Named-IsPromised :
      (spec : TransformationSpec) (w : W) (location : Text) (response : JobResponse)
      → Named spec w location response
      → IsPromised jobs queue public_base_url spec w location response
  Named-IsPromised spec w location response (id, t, located, shows, queued, there) = record {
    id = id;
    at = t;
    located = located;
    shows = shows;
    queued = queued;
    reads =
        get_job-shown jobs public_base_url id (new_job id spec t) response w (sym shows)
          (λ j k. let found : laws.stored w id ≡ some j = laws.get_reads id w j k in ground arith);
  }

  module _ (leaves : StorageLeaves laws.stored storage)
      (queue_leaves : (id j : Text) (w : W)
        → laws.stored (queue.enqueue id w).0 j ≡ laws.stored w j)
      (id_leaves : (j : Text) (w : W) → laws.stored (new_id w).0 j ≡ laws.stored w j)
      (clock_leaves : (j : Text) (w : W) → laws.stored (now w).0 j ≡ laws.stored w j) where
    pub handle_upload-Named :
        (spec : TransformationSpec) (content : Bytes) (w w' : W) (location : Text)
        (response : JobResponse)
        → handle_upload
            (execute storage jobs queue new_id now)
            ctx_err
            public_base_url
            (inr (spec, content))
            w
          ≡ (w', Upload.accepted location response)
        → Named spec w' location response
    unfolding handle_upload
    handle_upload-Named spec content w w' location response h =
        replied-Named spec (laws.stored w) _ w' location response
          (execute-Created storage jobs queue new_id now laws leaves queue_leaves id_leaves
            clock_leaves (record { source = some content; spec = spec }) w)
          h

    -- An upload that is answered with 202 keeps its promise: the location names a job that is
    -- pending with the specification that was sent and whose id has just been put on the queue, the
    -- answer shows that job, and a read of the id shows the same answer, unless the repository fails
    -- or the generator gave an empty id.
    pub handle_upload-IsPromised :
        (spec : TransformationSpec) (content : Bytes) (w w' : W) (location : Text)
        (response : JobResponse)
        → handle_upload
            (execute storage jobs queue new_id now)
            ctx_err
            public_base_url
            (inr (spec, content))
            w
          ≡ (w', Upload.accepted location response)
        → IsPromised jobs queue public_base_url spec w' location response
    handle_upload-IsPromised spec content w w' location response h =
        Named-IsPromised spec w' location response
          (handle_upload-Named spec content w w' location response h)
