-- ===== src/Local/Expiry.antt =====
-- A job whose context ends while it is worked on, over the in-memory repository.
use image_forge.Usecase.ProcessJob.Outcome.{Refusal, execute-not_pending}
use image_forge.Usecase.ProcessJob.Lifecycle.{transform-keeps}
use image_forge.Local.Contract.{stored, laws}
use image_forge.Prelude.{◌≡◌, refl, ◌≢◌, Option, none, some, [], arith, Text, text_eq_refl}
use image_forge.Errors.{Error, join_all, Result, ok, err}
use image_forge.Domain.Job.{JobStatus, pending, processing, Job}
use image_forge.Ports.{Storage, ImageProcessor, transition, StorageLeaves, ProcessorLeaves}
use image_forge.Memrepo
use image_forge.Usecase.ProcessJob.{transform, fail, worked, claimed, checked, loaded, execute}
use image_forge.Local.{Host, repository}

module _ (storage : Storage Host) (processor : ImageProcessor Host) where
  -- The world after the claim, and what the work then comes to.
  abbrev pub claim : Text → Host → Host × Option Error
  claim id h = repository.update_status id processing [] none h

  abbrev pub work : Text → Job → Host → Host × Result Text
  work id b h =
      transform storage repository processor (record b { status = processing }) (claim id h).0

  fail_expired :
      (job : Job) (e c : Error) (h : Host)
      → h.ctx_err ≡ some c
      → let r = fail storage repository processor job e h in (r.0 ≡ h) × (r.1 ≡ none) × (r.2 ≢ none)
  unfolding fail repository Memrepo.update_status join_all
  fail_expired job e c h x = ground arith

  -- The work is lost, and the world stays as it was left by it.
  abbrev pub Lost : Host → Host × Option Job × Option Error → Type 0
  Lost h r = (r.0 ≡ h) × (r.1 ≡ none) × (r.2 ≢ none)

  worked_expired :
      (id : Text) (job : Job) (e c : Error) (p : Host × Result Text)
      → p.1 ≡ err e
      → p.0.ctx_err ≡ some c
      → Lost p.0 (worked storage repository processor id job p)
  unfolding worked
  worked_expired id job e c (h, ok k) x late = cc
  worked_expired id job e c (h, err y) x late = fail_expired job y c h late

  claimed_expired :
      (id : Text) (b : Job) (e c : Error) (p : Host × Option Error)
      → p.1 ≡ none
      → let q = transform storage repository processor (record b { status = processing }) p.0 in
        q.1 ≡ err e → q.0.ctx_err ≡ some c → Lost q.0 (claimed storage repository processor id b p)
  unfolding claimed
  claimed_expired id b e c (h, none) x failing late = worked_expired id _ e c _ failing late
  claimed_expired id b e c (h, some y) x failing late = cc

  checked_expired :
      (id : Text) (b : Job) (e c : Error) (h : Host) (s : JobStatus)
      → s ≡ pending
      → (claim id h).1 ≡ none
      → (work id b h).1 ≡ err e
      → (work id b h).0.ctx_err ≡ some c
      → Lost (work id b h).0 (checked storage repository processor id b s h)
  unfolding checked
  checked_expired id b e c h pending x claims failing late =
      claimed_expired id b e c (claim id h) claims failing late
  checked_expired id b e c h _ x claims failing late = cc

  -- A pending job that a run loads and claims, whose work fails after its context has ended.
  pub record Expires (id : Text) (b : Job) (e c : Error) (h : Host) : Type 0 where
    pub got : Memrepo.get h.ctx_err id h.repo ≡ ok b
    pub pend : b.status ≡ pending
    pub claims : (claim id h).1 ≡ none
    pub failing : (work id b h).1 ≡ err e
    pub late : (work id b h).0.ctx_err ≡ some c

  expired :
      (id : Text) (b : Job) (e c : Error) (h : Host)
      → Expires id b e c h
      → Lost (work id b h).0 (execute storage repository processor id h)
  unfolding execute loaded repository
  expired id b e c h x =
      rw (x.got, loaded) (checked_expired id b e c h b.status x.pend x.claims x.failing x.late)

  get_live :
      (id : Text) (a : Job) (h : Host)
      → stored h id ≡ some a
      → (repository.get id (record h { ctx_err = none })).1 ≡ ok a
  unfolding repository Memrepo.get
  get_live id a h e = ground arith

  refused_live :
      (id : Text) (a : Job) (h : Host)
      → stored h id ≡ some a
      → a.status ≢ pending
      → let h' = record h { ctx_err = none } in
        Refusal storage repository processor a h' (execute storage repository processor id h')
  unfolding repository
  refused_live id a h e np =
      execute-not_pending storage repository processor id (record h { ctx_err = none }) a
        (get_live id a h e) np

  module _ (leaves : StorageLeaves stored storage) (quiet : ProcessorLeaves stored processor) where
    -- The claimed job is what is stored after the work.
    stored-work :
        (id : Text) (b : Job) (h : Host)
        → (claim id h).1 ≡ none
        → (a : Job) × (stored (work id b h).0 id ≡ some a) × (a.status ≡ processing)
    stored-work id b h claims =
        let (c, t, at, all) = laws.update_writes id processing [] none h claims in
        let keeps =
          transform-keeps storage repository processor laws leaves quiet
            (record b { status = processing }) id (claim id h).0 in
        (transition processing [] none t c, ground (arith, keeps, all id, text_eq_refl id), refl)

    -- A run whose work fails after its context has ended cannot record the failure: the claimed
    -- job stays in processing, the run returns an error, and the next run with a live context is
    -- refused because the job is not pending, and changes nothing.
    pub expired-Refusal :
        (id : Text) (b : Job) (e c : Error) (h : Host)
        → Expires id b e c h
        → let r = execute storage repository processor id h in
          let h' = record r.0 { ctx_err = none } in
          (a : Job) × (r.2 ≢ none)
          × (stored h' id ≡ some a)
          × (a.status ≡ processing)
          × Refusal storage repository processor a h' (execute storage repository processor id h')
    expired-Refusal id b e c h x =
        let (same, _, failing) = expired id b e c h x in
        let (a, at, busy) = stored-work id b h x.claims in
        let now : stored (execute storage repository processor id h).0 id ≡ some a = rw same at in
        (
          a,
          failing,
          now,
          busy,
          refused_live id a (execute storage repository processor id h).0 now (λ y. cc (busy, y)),
        )
