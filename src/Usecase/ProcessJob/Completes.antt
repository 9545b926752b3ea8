-- ===== src/Usecase/ProcessJob/Completes.antt =====
-- A run whose ports answer comes to its end.
use image_forge.Usecase.ProcessJob.Outcome.{IsDone, execute-IsDone}
use image_forge.Prelude.{
  ◌≡◌, refl, sym, ◌∙◌, subst, true, Option, none, some, [], arith, Text, text_eq_refl,
}
use image_forge.Errors.{Error, Result, ok, err}
use image_forge.Domain.Job.{JobStatus, pending, processing, done, valid_status, Job}
use image_forge.Ports.{
  Bytes, JobRepository, Storage, ImageProcessor, transition, RepositoryLaws, StorageLeaves,
  ProcessorLeaves,
}
use image_forge.Usecase.Keys.{result_key}
use image_forge.Usecase.ProcessJob.{
  stored_result, transformed, opened, transform, marked_done, worked, claimed, checked, loaded,
  execute,
}
use image_forge.Usecase.ProcessJob.Lifecycle.{transform-keeps}

-- What keeps a run for a job going, in worlds that are live, such as those whose context has not
-- ended and that hold the job's original: as long as the job is stored, each of its calls answers
-- without an error and leaves the world live, where what is fetched is readable, such as an image of
-- a format that the processor decodes, and the processor is held to answer on that alone.
pub record Answers {W : Type 0} (storage : Storage W) (jobs : JobRepository W)
    (processor : ImageProcessor W) (stored : W → Text → Option Job) (id : Text) (b : Job)
    (live : W → Type 0) (readable : Bytes → Type 0) : Type 0 where
  pub get_answers : (w : W) (c : Job) → live w → stored w id ≡ some c → (jobs.get id w).1 ≡ ok c
  pub update_answers :
      (s : JobStatus) (key : Text) (f : Option Error) (w : W) (c : Job)
      → live w
      → stored w id ≡ some c
      → valid_status s ≡ true
      → (jobs.update_status id s key f w).1 ≡ none
  pub fetch_answers :
      (w : W)
      → live w
      → (src : Bytes) × ((storage.fetch b.original_key w).1 ≡ ok src) × readable src
  pub process_answers :
      (src : Bytes) (w : W)
      → live w
      → readable src
      → (out : Bytes) × ((processor.process src b.transformation w).1 ≡ ok out)
  pub put_answers :
      (out : Bytes) (w : W)
      → live w
      → (storage.put (result_key b.id b.transformation) out w).1 ≡ none
  pub get_live : (w : W) → live w → live (jobs.get id w).0
  pub update_live :
      (s : JobStatus) (key : Text) (f : Option Error) (w : W)
      → live w
      → live (jobs.update_status id s key f w).0
  pub fetch_live : (w : W) → live w → live (storage.fetch b.original_key w).0
  pub process_live :
      (src : Bytes) (w : W) → live w → live (processor.process src b.transformation w).0
  pub put_live :
      (out : Bytes) (w : W) → live w → live (storage.put (result_key b.id b.transformation) out w).0

module _ {W : Type 0} (storage : Storage W) (jobs : JobRepository W) (processor : ImageProcessor W)
    (laws : RepositoryLaws jobs) (leaves : StorageLeaves laws.stored storage)
    (quiet : ProcessorLeaves laws.stored processor) (id : Text) (b : Job) {live : W → Type 0}
    {readable : Bytes → Type 0}
    (answers : Answers storage jobs processor laws.stored id b live readable) where
  abbrev started : Job
  started = record b { status = processing }

  -- A key, in a live world.
  abbrev Keyed : W × Result Text → Type 0
  Keyed r = live r.0 × ((k : Text) × (r.1 ≡ ok k))

  stored_result-Keyed :
      (key : Text) (p : W × Option Error)
      → p.1 ≡ none
      → live p.0
      → Keyed (stored_result storage jobs processor key p)
  unfolding stored_result
  stored_result-Keyed key (w, none) h l = (l, (key, refl))
  stored_result-Keyed key (w, some e) h l = absurd (ground arith)

  transformed-Keyed :
      (p : W × Result Bytes) (out : Bytes)
      → p.1 ≡ ok out
      → live p.0
      → Keyed (transformed storage jobs processor started p)
  unfolding transformed
  transformed-Keyed (w, ok x) out h l =
      stored_result-Keyed _ _ (answers.put_answers x w l) (answers.put_live x w l)
  transformed-Keyed (w, err e) out h l = absurd (ground arith)

  opened-Keyed :
      (p : W × Result Bytes) (src : Bytes)
      → p.1 ≡ ok src
      → readable src
      → live p.0
      → Keyed (opened storage jobs processor started p)
  unfolding opened
  opened-Keyed (w, ok x) src h good l =
      let same : src ≡ x = ground arith in
      let (out, e) = answers.process_answers x w l (subst readable same good) in
      transformed-Keyed _ out e (answers.process_live x w l)
  opened-Keyed (w, err e) src h good l = absurd (ground arith)

  transform-Keyed : (w : W) → live w → Keyed (transform storage jobs processor started w)
  unfolding transform
  transform-Keyed w l =
      let (src, e, good) = answers.fetch_answers w l in
      opened-Keyed _ src e good (answers.fetch_live w l)

  -- No error, in a live world.
  abbrev Completed : W × Option Job × Option Error → Type 0
  Completed r = (r.2 ≡ none) × live r.0

  marked_done-Completed :
      (key : Text) (p : W × Option Error)
      → p.1 ≡ none
      → live p.0
      → Completed (marked_done storage jobs processor id started key p)
  unfolding marked_done
  marked_done-Completed key (w, none) h l = (refl, l)
  marked_done-Completed key (w, some e) h l = absurd (ground arith)

  worked-Completed :
      (p : W × Result Text) (k : Text) (c : Job)
      → p.1 ≡ ok k
      → live p.0
      → laws.stored p.0 id ≡ some c
      → Completed (worked storage jobs processor id started p)
  unfolding worked valid_status
  worked-Completed (w, ok key) k c h l at =
      marked_done-Completed key _ (answers.update_answers done key none w c l at refl)
        (answers.update_live done key none w l)
  worked-Completed (w, err e) k c h l at = absurd (ground arith)

  claimed-Completed :
      (p : W × Option Error) (c : Job)
      → p.1 ≡ none
      → live p.0
      → laws.stored p.0 id ≡ some c
      → Completed (claimed storage jobs processor id b p)
  unfolding claimed
  claimed-Completed (w, none) c h l at =
      let (l', (k, e)) = transform-Keyed w l in
      worked-Completed (transform storage jobs processor started w) k c e l'
        (transform-keeps storage jobs processor laws leaves quiet started id w ∙ at)
  claimed-Completed (w, some e) c h l at = absurd (ground arith)

  claim-Completed :
      (w : W)
      → live w
      → laws.stored w id ≡ some b
      → Completed (claimed storage jobs processor id b (jobs.update_status id processing [] none w))
  unfolding valid_status
  claim-Completed w l at =
      let e = answers.update_answers processing [] none w b l at refl in
      let (c, t, _, all) = laws.update_writes id processing [] none w e in
      claimed-Completed _ (transition processing [] none t c) e
        (answers.update_live processing [] none w l) (all id ∙ rw (text_eq_refl id) refl)

  checked-Completed :
      (s : JobStatus) (w : W)
      → s ≡ pending
      → live w
      → laws.stored w id ≡ some b
      → Completed (checked storage jobs processor id b s w)
  unfolding checked
  checked-Completed pending w h l at = claim-Completed w l at
  checked-Completed _ w h l at = absurd (ground arith)

  loaded-Completed :
      (p : W × Result Job)
      → p.1 ≡ ok b
      → b.status ≡ pending
      → live p.0
      → laws.stored p.0 id ≡ some b
      → Completed (loaded storage jobs processor id p)
  unfolding loaded
  loaded-Completed (w, ok c) h pend l at =
      let e : c ≡ b = ground arith in
      subst (λ x. Completed (checked storage jobs processor id x x.status w)) (sym e)
        (checked-Completed b.status w pend l at)
  loaded-Completed (w, err e) h pend l at = absurd (ground arith)

  -- A run for a stored pending job whose calls answer returns no error, and leaves the job done
  -- with the key of its result.
  pub execute-completes :
      (w : W)
      → live w
      → laws.stored w id ≡ some b
      → b.status ≡ pending
      → b.id ≡ id
      → ((execute storage jobs processor id w).2 ≡ none)
        × live (execute storage jobs processor id w).0
        × IsDone id
            (laws.stored w)
            (laws.stored (execute storage jobs processor id w).0)
            (execute storage jobs processor id w).1
  unfolding execute
  execute-completes w l at pend own =
      let (e, l') =
        loaded-Completed (jobs.get id w) (answers.get_answers w b l at) pend (answers.get_live w l)
          (laws.get_keeps id id w ∙ at) in
      (
        e,
        l',
        execute-IsDone storage jobs processor laws leaves quiet id w
            (λ c h. ground (arith, h, at, own)) e,
      )
