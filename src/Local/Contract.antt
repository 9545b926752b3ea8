-- ===== src/Local/Contract.antt =====
-- The in-memory repository keeps the contract of the port.
use image_forge.Prelude.{
  ℕ, ◌≡◌, refl, ap, inl, inr, Option, none, some, arith, Text, text_eq, lookup-insert, lookup,
  if◌then◌else◌,
}
use image_forge.Errors.{Error, ok}
use image_forge.Domain.Job.{JobStatus, Job}
use image_forge.Ports.{transition, RepositoryLaws}
use image_forge.Memrepo.{Repository}
use image_forge.Memrepo
use image_forge.Memrepo.Laws.{update_status_lem}
use image_forge.Local.{Host, repository}

abbrev pub stored : Host → Text → Option Job
stored h j = lookup j h.repo.jobs

pub get_reads :
    (id : Text) (h : Host) (job : Job) → (repository.get id h).1 ≡ ok job → stored h id ≡ some job
unfolding repository Memrepo.get
get_reads id h job e = ground arith

pub save_writes :
    (job : Job) (j : Text) (h : Host)
    → (repository.save job h).1 ≡ none
    → stored (repository.save job h).0 j ≡ (if text_eq job.id j then some job else stored h j)
unfolding repository Memrepo.save
save_writes job j h e = ground (arith, lookup-insert job.id j job h.repo.jobs)

pub save_fails :
    (job : Job) (j : Text) (h : Host) (e : Error)
    → (repository.save job h).1 ≡ some e
    → stored (repository.save job h).0 j ≡ stored h j
unfolding repository Memrepo.save
save_fails job j h e x = ground arith

pub update_writes :
    (id : Text) (s : JobStatus) (key : Text) (f : Option Error) (h : Host)
    → (repository.update_status id s key f h).1 ≡ none
    → (job : Job) × (t : ℕ) × (stored h id ≡ some job)
      × ((j : Text)
          → stored (repository.update_status id s key f h).0 j
            ≡ (if text_eq id j then some (transition s key f t job) else stored h j))
unfolding repository
update_writes id s key f h e = elim (update_status_lem h.ctx_err id s key f h.repo) [
  | inl (job, (_, at, all)) ↦ (job, h.repo.clock, at, all)
  | inr (x, (refused, _, _)) ↦ absurd (ground arith)
]

pub update_fails :
    (id : Text) (s : JobStatus) (key : Text) (f : Option Error) (j : Text) (h : Host) (e : Error)
    → (repository.update_status id s key f h).1 ≡ some e
    → stored (repository.update_status id s key f h).0 j ≡ stored h j
unfolding repository
update_fails id s key f j h e x = elim (update_status_lem h.ctx_err id s key f h.repo) [
  | inl (job, (worked, _, _)) ↦ absurd (ground arith)
  | inr (y, (_, same, _)) ↦ ap (λ (r : Repository). lookup j r.jobs) same
]

pub get_keeps : (id j : Text) (h : Host) → stored (repository.get id h).0 j ≡ stored h j
unfolding repository
get_keeps id j h = refl

-- The in-memory repository keeps every law of the port, the jobs stored being those of its map.
abbrev pub laws : RepositoryLaws repository
laws = record {
  stored = stored;
  get_keeps = get_keeps;
  get_reads = get_reads;
  save_writes = save_writes;
  save_fails = save_fails;
  update_writes = update_writes;
  update_fails = update_fails;
}
