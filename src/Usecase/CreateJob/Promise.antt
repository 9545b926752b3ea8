-- ===== src/Usecase/CreateJob/Promise.antt =====
-- What one run of `CreateJob.Execute` does, over any repository that keeps the port's contract and
-- any storage, queue, generator and clock that leave the stored jobs alone.
use image_forge.Usecase.Keys.{original_key}
use image_forge.Domain.Validation.{IsUsable, validate-IsUsable}
use image_forge.Prelude.{
  ℕ, ◌≡◌, refl, ap, ◌∙◌, subst, inl, inr, Option, none, some, [], ◌∷◌, arith, Text, codes,
  text_eq_refl, text_eq, if◌then◌else◌, Option-cases,
}
use image_forge.Errors.{Error, wrap, join_all}
use image_forge.Domain.Job.{failed, Job}
use image_forge.Domain.Spec.{TransformationSpec, validate}
use image_forge.Ports.{
  Bytes, JobRepository, Storage, Queue, transition, RepositoryLaws, StorageLeaves,
}
use image_forge.Usecase.CreateJob.{
  CreateJobInput, new_job, marked, enqueued, saved, stamped, uploaded, named, validated, sourced,
  execute,
}

abbrev pub Jobs : Type 0
Jobs = Text → Option Job

abbrev pub Replaced : Text → Job → Jobs → Jobs → Type 0
Replaced id job before after = (j : Text) → after j ≡ (if text_eq id j then some job else before j)

-- The ways in which a run can end.
pub data Created {W : Type 0} (queue : Queue W) (spec : TransformationSpec) (before : Jobs)
    (stored : W → Jobs) (w : W) (job : Option Job) (error : Option Error) : Type 0 where
  -- an error, with no job stored
  rejected :
      (e : Error)
      → error ≡ some e
      → job ≡ none
      → ((j : Text) → stored w j ≡ before j)
      → Created queue spec before stored w job error
  -- the job is stored as pending, its id is on the queue, and it is what is returned
  accepted :
      (id : Text) (t : ℕ) (v : W)
      → job ≡ some (new_job id spec t)
      → error ≡ none
      → Replaced id (new_job id spec t) before (stored w)
      → queue.enqueue id v ≡ (w, none)
      → Created queue spec before stored w job error
  -- the queue refused it: the job is stored as failed, with the error that is returned
  withdrawn :
      (id : Text) (t u : ℕ) (e : Error)
      → job ≡ none
      → error ≡ some e
      → Replaced id (transition failed [] (some e) u (new_job id spec t)) before (stored w)
      → Created queue spec before stored w job error
  -- nor could the failure be recorded: the job stays pending, and the error says both
  orphaned :
      (id : Text) (t : ℕ) (e x : Error)
      → job ≡ none
      → error ≡ join_all (e ∷ wrap (codes "mark failed: ") x [] ∷ [])
      → Replaced id (new_job id spec t) before (stored w)
      → Created queue spec before stored w job error

module _ {W : Type 0} (storage : Storage W) (jobs : JobRepository W) (queue : Queue W)
    (new_id : W → W × Text) (now : W → W × ℕ) (laws : RepositoryLaws jobs)
    (leaves : StorageLeaves laws.stored storage)
    (queue_leaves : (id j : Text) (w : W) → laws.stored (queue.enqueue id w).0 j ≡ laws.stored w j)
    (id_leaves : (j : Text) (w : W) → laws.stored (new_id w).0 j ≡ laws.stored w j)
    (clock_leaves : (j : Text) (w : W) → laws.stored (now w).0 j ≡ laws.stored w j) where
  -- How a run stands to the jobs before it, for what it returns.
  abbrev pub Ends : TransformationSpec → Jobs → W × Option Job × Option Error → Type 0
  Ends spec before r = Created queue spec before laws.stored r.0 r.1 r.2

  marked-Ends :
      (spec : TransformationSpec) (before : Jobs) (id : Text) (t : ℕ) (w : W) (e : Error)
      (p : W × Option Error)
      → jobs.update_status id failed [] (some e) w ≡ p
      → Replaced id (new_job id spec t) before (laws.stored w)
      → Ends spec before (marked storage jobs queue new_id now e p)
  unfolding marked
  marked-Ends spec before id t w e (w', none) q there =
      let (job, u, at, all) = laws.update_writes id failed [] (some e) w (ap (λ p. p.1) q) in
      let own : job ≡ new_job id spec t = ground (arith, there id, text_eq_refl id) in
      let after = λ (j : Text).
        subst
          (λ (v : W). laws.stored v j ≡ (
            if text_eq id j then some (transition failed [] (some e) u job) else laws.stored w j))
          (ap (λ p. p.0) q) (all j) in
      withdrawn id t u e refl refl (λ j. ground (arith, after j, there j, own))
  marked-Ends spec before id t w e (w', some x) q there = orphaned id t e x refl refl (λ j.
      subst (λ (v : W). laws.stored v j ≡ laws.stored w j) (ap (λ p. p.0) q)
        (laws.update_fails id failed [] (some e) j w x (ap (λ p. p.1) q))
      ∙ there j)

  enqueued-Ends :
      (spec : TransformationSpec) (before : Jobs) (id : Text) (t : ℕ) (w : W) (p : W × Option Error)
      → queue.enqueue id w ≡ p
      → Replaced id (new_job id spec t) before (laws.stored p.0)
      → Ends spec before (enqueued storage jobs queue new_id now (new_job id spec t) p)
  unfolding enqueued
  enqueued-Ends spec before id t w (w', none) q there = accepted id t w refl refl there q
  enqueued-Ends spec before id t w (w', some e) q there =
      marked-Ends spec before id t w' _ _ refl there

  saved-Ends :
      (spec : TransformationSpec) (before : Jobs) (id : Text) (t : ℕ) (w : W) (p : W × Option Error)
      → jobs.save (new_job id spec t) w ≡ p
      → ((j : Text) → laws.stored w j ≡ before j)
      → Ends spec before (saved storage jobs queue new_id now (new_job id spec t) p)
  unfolding saved
  saved-Ends spec before id t w (w', none) q same =
      enqueued-Ends spec before id t w' (queue.enqueue id w') refl (λ j.
        let wrote =
          subst
            (λ (v : W).
              laws.stored v j
              ≡ (if text_eq id j then some (new_job id spec t) else laws.stored w j))
            (ap (λ p. p.0) q) (laws.save_writes (new_job id spec t) j w (ap (λ p. p.1) q)) in
        queue_leaves id j w' ∙ (rw (← same j) wrote))
  saved-Ends spec before id t w (w', some e) q same = rejected _ refl refl (λ j.
      subst (λ (v : W). laws.stored v j ≡ laws.stored w j) (ap (λ p. p.0) q)
        (laws.save_fails (new_job id spec t) j w e (ap (λ p. p.1) q))
      ∙ same j)

  uploaded-Ends :
      (spec : TransformationSpec) (before : Jobs) (id : Text) (p : W × Option Error)
      → ((j : Text) → laws.stored p.0 j ≡ before j)
      → Ends spec before (uploaded storage jobs queue new_id now id spec p)
  unfolding uploaded stamped
  uploaded-Ends spec before id (w, none) same =
      saved-Ends spec before id (now w).1 (now w).0 _ refl (λ j. clock_leaves j w ∙ same j)
  uploaded-Ends spec before id (w, some e) same = rejected _ refl refl same

  validated-Ends :
      (src : Bytes) (spec : TransformationSpec) (o : Option Error) (w : W)
      → Ends spec (laws.stored w) (validated storage jobs queue new_id now src spec o w)
  unfolding validated named
  validated-Ends src spec none w =
      let (w', id) = new_id w in
      uploaded-Ends spec (laws.stored w) id (storage.put (original_key id) src w')
        (λ j. leaves.put_keeps (original_key id) src j w' ∙ id_leaves j w)
  validated-Ends src spec (some e) w = rejected _ refl refl (λ j. refl)

  sourced-Ends :
      (o : Option Bytes) (spec : TransformationSpec) (w : W)
      → Ends spec (laws.stored w) (sourced storage jobs queue new_id now o spec w)
  sourced-Ends none spec w = rejected _ refl refl (λ j. refl)
  sourced-Ends (some src) spec w = validated-Ends src spec (validate spec) w

  pub execute-Created :
      (input : CreateJobInput) (w : W)
      → Ends input.spec (laws.stored w) (execute storage jobs queue new_id now input w)
  unfolding execute
  execute-Created input w = sourced-Ends input.source input.spec w

-- A specification that breaks the documented rules stores and queues nothing.
pub execute-unusable :
    {W : Type 0} (storage : Storage W) (jobs : JobRepository W) (queue : Queue W)
    (new_id : W → W × Text) (now : W → W × ℕ) (src : Bytes) (spec : TransformationSpec) (w : W)
    → ¬ IsUsable spec
    → let r = execute storage jobs queue new_id now (record { source = some src; spec = spec }) w in
      (r.0 ≡ w)
      × (r.1 ≡ none)
      × ((e : Error) × (validate spec ≡ some e)
          × (r.2 ≡ some (wrap (codes "create job: invalid transformation: ") e [])))
unfolding execute validated
execute-unusable storage jobs queue new_id now src spec w bad =
    elim (Option-cases (validate spec)) [
      | inl v ↦ absurd (bad ((validate-IsUsable spec).0 v))
      | inr (e, v) ↦ rw (v, validated) (refl, refl, (e, refl, refl))
    ]
