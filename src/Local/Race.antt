-- ===== src/Local/Race.antt =====
-- Two workers that are handed the same job, over the in-memory repository: the second has read the
-- job before the first claims it, and goes on after the first has returned.
use image_forge.Usecase.ProcessJob.Outcome.{IsDone, execute-IsDone}
use image_forge.Usecase.ProcessJob.Lifecycle.{transform-keeps}
use image_forge.Local.Contract.{stored, laws}
use image_forge.Local.Expiry.{claim, work}
use image_forge.Prelude.{
  ◌≡◌, refl, sym, ap, ◌∙◌, subst, ◌≢◌, inl, inr, true, Option, none, some, [], ◌++◌, arith, Text,
  codes, text_eq_refl,
}
use image_forge.Errors.{Error, wrap, Result, ok, err}
use image_forge.Domain.Job.{JobStatus, pending, processing, failed, valid_status, Job}
use image_forge.Ports.{Storage, ImageProcessor, transition, StorageLeaves, ProcessorLeaves}
use image_forge.Memrepo
use image_forge.Memrepo.Laws.{update_status_lem}
use image_forge.Usecase.ProcessJob.{transform, fail, worked, claimed, checked, loaded, execute}
use image_forge.Local.{Host, repository}

-- An update of a stored job to a known status works while the context lasts, whatever status the
-- job has.
pub update_works :
    (id : Text) (s : JobStatus) (key : Text) (f : Option Error) (h : Host) (c : Job)
    → h.ctx_err ≡ none
    → stored h id ≡ some c
    → valid_status s ≡ true
    → (repository.update_status id s key f h).1 ≡ none
unfolding repository
update_works id s key f h c live at known = elim (update_status_lem h.ctx_err id s key f h.repo) [
  | inl (job, (works, _, _)) ↦ works
  | inr (x, (_, _, why)) ↦ absurd (ground (arith, why, live, at, known))
]

module _ (storage : Storage Host) (processor : ImageProcessor Host) where
  -- The job is failed, and the run returns an error.
  abbrev pub Failed : Text → Host × Option Job × Option Error → Type 0
  Failed id r = ((f : Job) × (stored r.0 id ≡ some f) × (f.status ≡ failed)) × (r.2 ≢ none)

  updated-failed :
      (id : Text) (f : Option Error) (h : Host)
      → (repository.update_status id failed [] f h).1 ≡ none
      → (j : Job) × (stored (repository.update_status id failed [] f h).0 id ≡ some j)
        × (j.status ≡ failed)
  updated-failed id f h e =
      let (c, t, _, all) = laws.update_writes id failed [] f h e in
      (transition failed [] f t c, all id ∙ rw (text_eq_refl id) refl, refl)

  marked :
      (job : Job) (e : Error) (h : Host)
      → let wrapped = wrap (codes "process job " ++ job.id ++ codes ": ") e [] in
        let u = repository.update_status job.id failed [] (some wrapped) h in
        u.1 ≡ none → let r = fail storage repository processor job e h in (r.0 ≡ u.0) × (r.2 ≢ none)
  unfolding fail repository
  marked job e h works = (simp works refl, λ x. ground (arith, x, works))

  fail-Failed :
      (job : Job) (e : Error) (h : Host) (c : Job)
      → h.ctx_err ≡ none
      → stored h job.id ≡ some c
      → Failed job.id (fail storage repository processor job e h)
  unfolding fail valid_status
  fail-Failed job e h c live at =
      let wrapped = wrap (codes "process job " ++ job.id ++ codes ": ") e [] in
      let works = update_works job.id failed [] (some wrapped) h c live at refl in
      let (f, there, is_failed) = updated-failed job.id (some wrapped) h works in
      let (same, error) = marked job e h works in
      ((f, ap (λ (x : Host). stored x job.id) same ∙ there, is_failed), error)

  worked-Failed :
      (job : Job) (e : Error) (p : Host × Result Text) (c : Job)
      → p.1 ≡ err e
      → p.0.ctx_err ≡ none
      → stored p.0 job.id ≡ some c
      → Failed job.id (worked storage repository processor job.id job p)
  unfolding worked
  worked-Failed job e (h, ok k) c x live at = absurd (ground arith)
  worked-Failed job e (h, err y) c x live at = fail-Failed job y h c live at

  claimed-Failed :
      (b : Job) (e : Error) (p : Host × Option Error) (c : Job)
      → p.1 ≡ none
      → let q = transform storage repository processor (record b { status = processing }) p.0 in
        q.1 ≡ err e
        → q.0.ctx_err ≡ none
        → stored q.0 b.id ≡ some c
        → Failed b.id (claimed storage repository processor b.id b p)
  unfolding claimed
  claimed-Failed b e (h, none) c x failing live at =
      worked-Failed (record b { status = processing }) e _ c failing live at
  claimed-Failed b e (h, some y) c x failing live at = absurd (ground arith)

  checked-Failed :
      (b : Job) (e : Error) (h : Host) (s : JobStatus) (c : Job)
      → s ≡ pending
      → (claim storage processor b.id h).1 ≡ none
      → (work storage processor b.id b h).1 ≡ err e
      → (work storage processor b.id b h).0.ctx_err ≡ none
      → stored (work storage processor b.id b h).0 b.id ≡ some c
      → Failed b.id (checked storage repository processor b.id b s h)
  unfolding checked
  checked-Failed b e h pending c x claims failing live at =
      claimed-Failed b e (claim storage processor b.id h) c claims failing live at
  checked-Failed b e h _ c x claims failing live at = absurd (ground arith)

  -- A run for the job that has read it in the world `h` and does the rest in the world `h'`.
  abbrev pub resumed : Text → Host → Host → Host × Option Job × Option Error
  resumed id h h' = loaded storage repository processor id (h', (repository.get id h).1)

  resumed-checked :
      (b : Job) (h h' : Host)
      → h.ctx_err ≡ none
      → stored h b.id ≡ some b
      → resumed b.id h h' ≡ checked storage repository processor b.id b b.status h'
  unfolding loaded repository Memrepo.get
  resumed-checked b h h' live at = rw (live, at) refl

  module _ (leaves : StorageLeaves stored storage) (quiet : ProcessorLeaves stored processor) where
    -- Two workers read a job as pending; the first runs it to its end without an error, and the
    -- second goes on with what it has read. The second is not refused: it claims the job that is
    -- done, and where its work then fails, while its context lasts, the job that was done with a
    -- result is stored as failed.
    pub execute-twice :
        (b : Job) (e : Error) (h : Host)
        → h.ctx_err ≡ none
        → stored h b.id ≡ some b
        → b.status ≡ pending
        → let first = execute storage repository processor b.id h in
          first.2 ≡ none
          → first.0.ctx_err ≡ none
          → (work storage processor b.id b first.0).1 ≡ err e
          → (work storage processor b.id b first.0).0.ctx_err ≡ none
          → IsDone b.id (stored h) (stored first.0) first.1 × Failed b.id (resumed b.id h first.0)
    unfolding valid_status
    execute-twice b e h live at pend went live' failing late =
        let first = execute storage repository processor b.id h in
        let ended =
          execute-IsDone storage repository processor laws leaves quiet b.id h
            (λ c q. ground (arith, q, at)) went in
        let (_, a, _, _, there, _, _, _, _) = ended in
        let claims = update_works b.id processing [] none first.0 a live' there refl in
        let (c, t, _, all) = laws.update_writes b.id processing [] none first.0 claims in
        let now =
          transform-keeps storage repository processor laws leaves quiet
            (record b { status = processing }) b.id (claim storage processor b.id first.0).0
          ∙ all b.id
          ∙ rw (text_eq_refl b.id) refl in
        (
          ended,
          subst (Failed b.id) (sym (resumed-checked b h first.0 live at)) (
              checked-Failed b e first.0 b.status (transition processing [] none t c) pend claims
                failing late now),
        )
