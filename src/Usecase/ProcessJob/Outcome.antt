-- ===== src/Usecase/ProcessJob/Outcome.antt =====
-- What a caller of `ProcessJob.Execute` may rely on.
use image_forge.Usecase.ProcessJob.{checked, loaded, execute}
use image_forge.Ports.{
  JobRepository, Storage, ImageProcessor, RepositoryLaws, StorageLeaves, ProcessorLeaves,
}
use image_forge.Errors.{job_not_pending, Error, is, Result, ok, err}
use image_forge.Domain.Spec.{ext, TransformationSpec}
use image_forge.Usecase.Keys.{result_key}
use image_forge.Prelude.{
  ◌≡◌, refl, sym, subst, ◌≢◌, inl, inr, true, Option, none, some, [], ◌∷◌, arith, Text,
  text_eq_refl, text_eq-eq, text_eq, Bool-cases,
}
use image_forge.Domain.Job.{JobStatus, pending, processing, done, failed, Job}
use image_forge.Usecase.ProcessJob.Lifecycle.{
  Jobs, Replaced, done_job, Ran, refused, finished, recorded, unrecorded, execute-Ran,
}

-- The edges of the lifecycle that one run can take a job along.
pub data Moves : JobStatus → JobStatus → Type 0 where
  stays : {s : JobStatus} → Moves s s
  gets_stuck : Moves pending processing
  completes : Moves pending done
  fails : Moves pending failed

-- A job that is not stored is not created, and a stored one keeps its identity and its request.
abbrev pub Evolves : Option Job → Option Job → Type 0
Evolves none after = after ≡ none
Evolves (some b) after =
    (a : Job) × (after ≡ some a)
    × (a.id ≡ b.id)
    × (a.original_key ≡ b.original_key)
    × (a.transformation ≡ b.transformation)
    × (a.created_at ≡ b.created_at)
    × Moves b.status a.status

Evolves-refl : (o : Option Job) → Evolves o o
Evolves-refl none = refl
Evolves-refl (some b) = (b, refl, refl, refl, refl, refl, stays)

Evolves-same : {o o' : Option Job} → o' ≡ o → Evolves o o'
Evolves-same {o} e = subst (Evolves o) (sym e) (Evolves-refl o)

-- One job replaced by a later state of itself.
Evolves-Replaced :
    (id : Text) (b a : Job) (before after : Jobs) (j : Text)
    → before id ≡ some b
    → Evolves (some b) (some a)
    → Replaced id a before after
    → Evolves (before j) (after j)
Evolves-Replaced id b a before after j at step all = elim (Bool-cases (text_eq id j)) [
  | inl e ↦ rw (all j, e, ← text_eq-eq id j e, at) step
  | inr e ↦ rw (all j, e) (Evolves-refl (before j))
]

Ran-Evolves :
    (id j : Text) (before after : Jobs) (job : Option Job) (error : Option Error)
    → Ran id before after job error
    → Evolves (before j) (after j)
Ran-Evolves id j before after job error (refused e _ same) = Evolves-same (same j)
Ran-Evolves id j before after job error (finished b t u at pend all _ _) =
    Evolves-Replaced id b _ before after j at (_, refl, refl, refl, refl, refl, rw pend completes)
      all
Ran-Evolves id j before after job error (recorded b e t u at pend all _ _) =
    Evolves-Replaced id b _ before after j at (_, refl, refl, refl, refl, refl, rw pend fails) all
Ran-Evolves id j before after job error (unrecorded b e t at pend all _ _) =
    Evolves-Replaced id b _ before after j at (_, refl, refl, refl, refl, refl, rw pend gets_stuck)
      all

-- The stored job and the returned one after a run that reports no error.
abbrev pub IsDone : Text → Jobs → Jobs → Option Job → Type 0
IsDone id before after job =
    (b : Job) × (a : Job) × (before id ≡ some b)
    × (b.status ≡ pending)
    × (after id ≡ some a)
    × (a.status ≡ done)
    × (a.result_key ≡ result_key b.id b.transformation)
    × (a.error ≡ [])
    × (job ≡ some (record a { updated_at = b.updated_at }))

key_written :
    (id : Text) (spec : TransformationSpec) (old : Text)
    → (elim (result_key id spec) [ [] ↦ old | c ∷ cs ↦ c ∷ cs ]) ≡ result_key id spec
unfolding result_key ext
key_written id spec old = ground arith

Ran-IsDone :
    (id : Text) (before after : Jobs) (job : Option Job) (error : Option Error)
    → Ran id before after job error
    → error ≡ none
    → IsDone id before after job
Ran-IsDone id before after job error (refused e x same) h = cc
Ran-IsDone id before after job error (finished b t u at pend all out _) h =
    let key = key_written b.id b.transformation b.result_key in
    (
      b,
      done_job b t u,
      at,
      pend,
      rw (all id, text_eq_refl id) refl,
      refl,
      key,
      refl,
      rw (out, key) refl,
    )
Ran-IsDone id before after job error (recorded b e t u at pend all _ x) h = cc
Ran-IsDone id before after job error (unrecorded b e t at pend all _ x) h = cc

module _ {W : Type 0} (storage : Storage W) (jobs : JobRepository W) (processor : ImageProcessor W)
    (laws : RepositoryLaws jobs) (leaves : StorageLeaves laws.stored storage)
    (quiet : ProcessorLeaves laws.stored processor) where
  -- No run creates or removes a job or changes what was asked of one; of a stored job's status it
  -- leaves a job that is not pending as it is, and takes a pending one to processing, done or
  -- failed at most.
  pub execute-Evolves :
      (id j : Text) (w : W)
      → ((b : Job) → laws.stored w id ≡ some b → b.id ≡ id)
      → Evolves (laws.stored w j) (laws.stored (execute storage jobs processor id w).0 j)
  execute-Evolves id j w own =
      Ran-Evolves id j _ _ _ _ (execute-Ran storage jobs processor laws leaves quiet id w own)

  -- A run that returns no error found the job pending and left it done, with the key of its result
  -- and no failure; the job it returns is the stored one but for its time stamp.
  pub execute-IsDone :
      (id : Text) (w : W)
      → ((b : Job) → laws.stored w id ≡ some b → b.id ≡ id)
      → (execute storage jobs processor id w).2 ≡ none
      → IsDone id
          (laws.stored w)
          (laws.stored (execute storage jobs processor id w).0)
          (execute storage jobs processor id w).1
  execute-IsDone id w own h =
      Ran-IsDone id _ _ _ _ (execute-Ran storage jobs processor laws leaves quiet id w own) h

module _ {W : Type 0} (storage : Storage W) (jobs : JobRepository W)
    (processor : ImageProcessor W) where
  abbrev pub Refusal : Job → W → W × Option Job × Option Error → Type 0
  Refusal b w r =
      (r.0 ≡ w) × (r.1 ≡ some b) × ((e : Error) × (r.2 ≡ some e) × (is e job_not_pending ≡ true))

  checked-Refusal :
      (id : Text) (b : Job) (s : JobStatus) (w : W)
      → s ≢ pending
      → Refusal b w (checked storage jobs processor id b s w)
  unfolding checked is
  checked-Refusal id b pending w np = absurd (np refl)
  checked-Refusal id b _ w np = (refl, refl, (_, refl, refl))

  loaded-Refusal :
      (id : Text) (b : Job) (p : W × Result Job)
      → p.1 ≡ ok b
      → b.status ≢ pending
      → Refusal b p.0 (loaded storage jobs processor id p)
  unfolding loaded
  loaded-Refusal id b (w, ok b') h np =
      let e : b' ≡ b = cc in
      subst (λ x. Refusal b w (checked storage jobs processor id x x.status w)) (sym e)
        (checked-Refusal id b b.status w np)
  loaded-Refusal id b (w, err e) h np = cc

  -- A job that is read and is not pending is refused: the only call is the read, the job is
  -- returned with an error that is `ErrJobNotPending`.
  pub execute-not_pending :
      (id : Text) (w : W) (b : Job)
      → (jobs.get id w).1 ≡ ok b
      → b.status ≢ pending
      → Refusal b (jobs.get id w).0 (execute storage jobs processor id w)
  unfolding execute
  execute-not_pending id w b h np = loaded-Refusal id b (jobs.get id w) h np
