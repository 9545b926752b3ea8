-- ===== src/Usecase/ProcessJob/Lifecycle.antt =====
-- What one run of `ProcessJob.Execute` does to the stored jobs, over any repository that keeps the
-- port's contract, any storage and processor that leave the jobs alone, and any failures of theirs.
use image_forge.Prelude.{
  ℕ, ◌≡◌, refl, sym, ap, ◌∙◌, subst, fun_ext, Option, none, some, [], ◌++◌, arith, Text, codes,
  text_eq_refl, text_eq, if◌then◌else◌,
}
use image_forge.Errors.{Error, wrap, message, join_all, Result, ok, err}
use image_forge.Domain.Job.{JobStatus, pending, processing, done, failed, Job}
use image_forge.Ports.{
  Bytes, JobRepository, Storage, ImageProcessor, transition, RepositoryLaws, StorageLeaves,
  ProcessorLeaves,
}
use image_forge.Usecase.Keys.{result_key}
use image_forge.Usecase.ProcessJob.{
  stored_result, transformed, opened, transform, marked_failed, fail, marked_done, worked, claimed,
  checked, loaded, execute,
}

abbrev pub Jobs : Type 0
Jobs = Text → Option Job

-- The same jobs but for one.
abbrev pub Replaced : Text → Job → Jobs → Jobs → Type 0
Replaced id job before after = (j : Text) → after j ≡ (if text_eq id j then some job else before j)

abbrev pub claimed_job : Job → ℕ → Job
claimed_job b t = transition processing [] none t b

abbrev pub done_job : Job → ℕ → ℕ → Job
done_job b t u = transition done (result_key b.id b.transformation) none u (claimed_job b t)

abbrev pub failed_job : Job → Error → ℕ → ℕ → Job
failed_job b e t u = transition failed [] (some e) u (claimed_job b t)

-- The four ways in which a run can end, by the jobs before and after it and what it returned.
pub data Ran (id : Text) (before after : Jobs) (job : Option Job) (error : Option Error)
    : Type 0 where
  -- refused before any work: nothing was written
  refused :
      (e : Error)
      → error ≡ some e
      → ((j : Text) → after j ≡ before j)
      → Ran id before after job error
  -- the result was stored and the job is done
  finished :
      (b : Job) (t u : ℕ)
      → before id ≡ some b
      → b.status ≡ pending
      → Replaced id (done_job b t u) before after
      → job
        ≡ some
            (record b { status = done; result_key = result_key b.id b.transformation; error = [] })
      → error ≡ none
      → Ran id before after job error
  -- the work failed, and the failure is recorded
  recorded :
      (b : Job) (e : Error) (t u : ℕ)
      → before id ≡ some b
      → b.status ≡ pending
      → Replaced id (failed_job b e t u) before after
      → job ≡ some (record b { status = failed; error = message e })
      → error ≡ some e
      → Ran id before after job error
  -- the job was claimed, and its outcome could not be recorded: it stays in processing
  unrecorded :
      (b : Job) (e : Error) (t : ℕ)
      → before id ≡ some b
      → b.status ≡ pending
      → Replaced id (claimed_job b t) before after
      → job ≡ none
      → error ≡ some e
      → Ran id before after job error

module _ {W : Type 0} (storage : Storage W) (jobs : JobRepository W) (processor : ImageProcessor W)
    (laws : RepositoryLaws jobs) (leaves : StorageLeaves laws.stored storage)
    (quiet : ProcessorLeaves laws.stored processor) where
  stored_result-keeps :
      (key : Text) (p : W × Option Error) (j : Text)
      → laws.stored (stored_result storage jobs processor key p).0 j ≡ laws.stored p.0 j
  unfolding stored_result
  stored_result-keeps key (w, none) j = refl
  stored_result-keeps key (w, some e) j = refl

  transformed-keeps :
      (job : Job) (p : W × Result Bytes) (j : Text)
      → laws.stored (transformed storage jobs processor job p).0 j ≡ laws.stored p.0 j
  unfolding transformed
  transformed-keeps job (w, ok out) j =
      let key = result_key job.id job.transformation in
      stored_result-keeps key (storage.put key out w) j ∙ leaves.put_keeps key out j w
  transformed-keeps job (w, err e) j = refl

  opened-keeps :
      (job : Job) (p : W × Result Bytes) (j : Text)
      → laws.stored (opened storage jobs processor job p).0 j ≡ laws.stored p.0 j
  unfolding opened
  opened-keeps job (w, ok src) j =
      transformed-keeps job (processor.process src job.transformation w) j
      ∙ quiet.process_keeps src job.transformation j w
  opened-keeps job (w, err e) j = refl

  pub transform-keeps :
      (job : Job) (j : Text) (w : W)
      → laws.stored (transform storage jobs processor job w).0 j ≡ laws.stored w j
  unfolding transform
  transform-keeps job j w =
      opened-keeps job (storage.fetch job.original_key w) j
      ∙ leaves.fetch_keeps job.original_key j w

  -- What remains to be shown of a claimed job, from the call that records its outcome.
  module _ (id : Text) (before : Jobs) (b : Job) (t : ℕ) (w : W) (at : before id ≡ some b)
      (pend : b.status ≡ pending) (own : b.id ≡ id)
      (now : Replaced id (claimed_job b t) before (laws.stored w)) where
    claimed_now : (c : Job) → laws.stored w id ≡ some c → c ≡ claimed_job b t
    claimed_now c e = ground (arith, now id, text_eq_refl id)

    recorded_now :
        (s : JobStatus) (key : Text) (f : Option Error)
        → (jobs.update_status id s key f w).1 ≡ none
        → (u : ℕ) × Replaced id
            (transition s key f u (claimed_job b t))
            before
            (laws.stored (jobs.update_status id s key f w).0)
    recorded_now s key f e =
        let (c, u, found, all) = laws.update_writes id s key f w e in
        (u, λ j. ground (arith, all j, now j, claimed_now c found))

    kept_now :
        (s : JobStatus) (key : Text) (f : Option Error) (x : Error)
        → (jobs.update_status id s key f w).1 ≡ some x
        → Replaced id (claimed_job b t) before (laws.stored (jobs.update_status id s key f w).0)
    kept_now s key f x e j = laws.update_fails id s key f j w x e ∙ now j

    marked_failed-Ran :
        (e : Error) (p : W × Option Error)
        → jobs.update_status id failed [] (some e) w ≡ p
        → let r = marked_failed storage jobs processor (record b { status = processing }) e p in
          Ran id before (laws.stored r.0) r.1 r.2
    unfolding marked_failed join_all
    marked_failed-Ran e (w', none) q =
        let (u, all) = recorded_now failed [] (some e) (ap (λ p. p.1) q) in
        recorded b e t u at pend
          (subst (λ p. Replaced id (failed_job b e t u) before (laws.stored p.0)) q all) refl refl
    marked_failed-Ran e (w', some x) q =
        unrecorded b _ t at pend
          (subst (λ p. Replaced id (claimed_job b t) before (laws.stored p.0)) q
            (kept_now failed [] (some e) x (ap (λ p. p.1) q)))
          refl refl

    marked_done-Ran :
        (p : W × Option Error)
        → let key = result_key b.id b.transformation in
          jobs.update_status id done key none w ≡ p
          → let r =
              marked_done storage jobs processor id (record b { status = processing }) key p in
            Ran id before (laws.stored r.0) r.1 r.2
    unfolding marked_done
    marked_done-Ran (w', none) q =
        let key = result_key b.id b.transformation in
        let (u, all) = recorded_now done key none (ap (λ p. p.1) q) in
        finished b t u at pend
          (subst (λ p. Replaced id (done_job b t u) before (laws.stored p.0)) q all) refl refl
    marked_done-Ran (w', some x) q =
        unrecorded b _ t at pend
          (subst (λ p. Replaced id (claimed_job b t) before (laws.stored p.0)) q
            (kept_now done (result_key b.id b.transformation) none x (ap (λ p. p.1) q)))
          refl refl

  stored_result-key :
      (key : Text) (p : W × Option Error) (k : Text)
      → (stored_result storage jobs processor key p).1 ≡ ok k
      → k ≡ key
  unfolding stored_result
  stored_result-key key (w, none) k h = cc
  stored_result-key key (w, some e) k h = cc

  transformed-key :
      (job : Job) (p : W × Result Bytes) (k : Text)
      → (transformed storage jobs processor job p).1 ≡ ok k
      → k ≡ result_key job.id job.transformation
  unfolding transformed
  transformed-key job (w, ok out) k h = stored_result-key _ _ k h
  transformed-key job (w, err e) k h = cc

  transform-key :
      (job : Job) (p : W × Result Bytes) (k : Text)
      → (opened storage jobs processor job p).1 ≡ ok k
      → k ≡ result_key job.id job.transformation
  unfolding opened
  transform-key job (w, ok src) k h = transformed-key job _ k h
  transform-key job (w, err e) k h = cc

  worked-Ran :
      (id : Text) (before : Jobs) (b : Job) (t : ℕ) (p : W × Result Text)
      → before id ≡ some b
      → b.status ≡ pending
      → b.id ≡ id
      → Replaced id (claimed_job b t) before (laws.stored p.0)
      → ((k : Text) → p.1 ≡ ok k → k ≡ result_key b.id b.transformation)
      → let r = worked storage jobs processor id (record b { status = processing }) p in
        Ran id before (laws.stored r.0) r.1 r.2
  unfolding worked fail
  worked-Ran id before b t (w, ok k) at pend own now key =
      rw (key k refl) (marked_done-Ran id before b t w at pend own now _ refl)
  worked-Ran id before b t (w, err e) at pend own now key =
      let x = wrap (codes "process job " ++ b.id ++ codes ": ") e [] in
      marked_failed-Ran id before b t w at pend own now x _
        (ap (λ i. jobs.update_status i failed [] (some x) w) (sym own))

  claimed-Ran :
      (id : Text) (before : Jobs) (b : Job) (p : W × Option Error)
      → before id ≡ some b
      → b.status ≡ pending
      → b.id ≡ id
      → (p.1 ≡ none → (t : ℕ) × Replaced id (claimed_job b t) before (laws.stored p.0))
      → ((e : Error) → p.1 ≡ some e → (j : Text) → laws.stored p.0 j ≡ before j)
      → let r = claimed storage jobs processor id b p in Ran id before (laws.stored r.0) r.1 r.2
  unfolding claimed transform
  claimed-Ran id before b (w, none) at pend own done_write kept =
      let (t, now) = done_write refl in
      let b' = record b { status = processing } in
      worked-Ran id before b t (transform storage jobs processor b' w) at pend own
        (λ j. transform-keeps b' j w ∙ now j) (transform-key b' (storage.fetch b.original_key w))
  claimed-Ran id before b (w, some e) at pend own done_write kept = refused _ refl (kept e refl)

  claim-Ran :
      (id : Text) (b : Job) (w : W)
      → laws.stored w id ≡ some b
      → b.status ≡ pending
      → b.id ≡ id
      → let r = claimed storage jobs processor id b (jobs.update_status id processing [] none w) in
        Ran id (laws.stored w) (laws.stored r.0) r.1 r.2
  claim-Ran id b w at pend own =
      claimed-Ran id (laws.stored w) b (jobs.update_status id processing [] none w) at pend own
        (λ e.
          let (c, t, found, all) = laws.update_writes id processing [] none w e in
          (t, λ j. ground (arith, all j)))
        (λ e x j. laws.update_fails id processing [] none j w e x)

  checked-Ran :
      (id : Text) (b : Job) (s : JobStatus) (w : W)
      → b.status ≡ s
      → laws.stored w id ≡ some b
      → b.id ≡ id
      → let r = checked storage jobs processor id b s w in
        Ran id (laws.stored w) (laws.stored r.0) r.1 r.2
  unfolding checked
  checked-Ran id b pending w is_s at own = claim-Ran id b w at is_s own
  checked-Ran id b s w is_s at own = refused _ refl (λ j. refl)

  loaded-Ran :
      (id : Text) (before : Jobs) (p : W × Result Job)
      → before ≡ laws.stored p.0
      → ((b : Job) → p.1 ≡ ok b → before id ≡ some b)
      → ((b : Job) → before id ≡ some b → b.id ≡ id)
      → let r = loaded storage jobs processor id p in Ran id before (laws.stored r.0) r.1 r.2
  unfolding loaded
  loaded-Ran id before (w, ok b) keeps reads own =
      rw keeps
        (checked-Ran id b b.status w refl (rw keeps at (reads b refl)) (own b (reads b refl)))
  loaded-Ran id before (w, err e) keeps reads own = refused _ refl (λ j. rw keeps refl)

  -- Every run of `Execute`, whatever fails on its way, ends in one of the four ways of `Ran`: the
  -- jobs other than the given one are untouched, the given one is written only if it was pending,
  -- and what is returned agrees with what is stored.
  pub execute-Ran :
      (id : Text) (w : W)
      → ((b : Job) → laws.stored w id ≡ some b → b.id ≡ id)
      → let r = execute storage jobs processor id w in
        Ran id (laws.stored w) (laws.stored r.0) r.1 r.2
  unfolding execute
  execute-Ran id w own =
      loaded-Ran id (laws.stored w) (jobs.get id w) (fun_ext (λ j. sym (laws.get_keeps id j w)))
        (λ b e. laws.get_reads id w b e) own
