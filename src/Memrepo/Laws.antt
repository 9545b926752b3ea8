-- ===== src/Memrepo/Laws.antt =====
-- What one call on the in-memory repository does, on every branch.
use image_forge.Prelude.{
  ℕ, ◌≡◌, refl, ◌≢◌, ◌⊎◌, inl, inr, Bool, true, false, not, Option, none, some, [], ◌∷◌, arith,
  Text, text_eq_iff, text_eq, lookup-insert, lookup, if◌then◌else◌,
}
use image_forge.Errors.{job_not_found, Error, is, ok}
use image_forge.Domain.Job.{JobStatus, valid_status, Job}
use image_forge.Ports.{transition}
use image_forge.Memrepo.{Repository, save, get, updated, write, update_status}

updated-transition :
    (s : JobStatus) (key : Text) (f : Option Error) (t : ℕ) (j : Job)
    → updated s key f t j ≡ transition s key f t j
unfolding updated text_eq
updated-transition s [] f t j = refl
updated-transition s (c ∷ cs) f t j = refl

-- The update went through: job `j` has its new state, and every other job is as it was.
abbrev pub Updates :
    Text → JobStatus → Text → Option Error → Repository → Job → Repository × Option Error → Type 0
Updates id s key f r j p =
    (p.1 ≡ none)
    × (lookup id r.jobs ≡ some j)
    × ((i : Text)
        → lookup i p.0.jobs
          ≡ (if text_eq id i then some (transition s key f r.clock j) else lookup i r.jobs))

-- The update changed nothing, because of the context, an unknown status, or a missing job.
abbrev pub Refuses :
    Option Error → Text → JobStatus → Repository → Error → Repository × Option Error → Type 0
Refuses c id s r e p =
    (p.1 ≡ some e)
    × (p.0 ≡ r)
    × ((c ≡ some e)
        ⊎ (valid_status s ≡ false)
        ⊎ ((lookup id r.jobs ≡ none) × (is e job_not_found ≡ true)))

write_lem :
    (c : Option Error) (id : Text) (s : JobStatus) (key : Text) (f : Option Error) (r : Repository)
    (o : Option Job)
    → lookup id r.jobs ≡ o
    → ((j : Job) × Updates id s key f r j (write id s key f r o))
      ⊎ ((e : Error) × Refuses c id s r e (write id s key f r o))
unfolding write is
write_lem c id s key f r none h = inr (_, (refl, refl, inr (inr (h, refl))))
write_lem c id s key f r (some j) h =
    let now = updated-transition s key f r.clock j in
    inl (j, (refl, h, λ i. rw (lookup-insert id i (updated s key f r.clock j) r.jobs, now) refl))

-- Every update either writes its job alone or is refused for one of the three reasons.
pub update_status_lem :
    (c : Option Error) (id : Text) (s : JobStatus) (key : Text) (f : Option Error) (r : Repository)
    → let p = update_status c id s key f r in
      ((j : Job) × Updates id s key f r j p) ⊎ ((e : Error) × Refuses c id s r e p)
unfolding update_status
update_status_lem (some e) id s key f r = inr (e, (refl, refl, inl refl))
update_status_lem none id s key f r = guarded _ (valid_status s) refl
  where
    guarded :
        (x : Error) (b : Bool)
        → valid_status s ≡ b
        → let p = if not b then (r, some x) else write id s key f r (lookup id r.jobs) in
          ((j : Job) × Updates id s key f r j p) ⊎ ((e : Error) × Refuses none id s r e p)
    guarded x true v = write_lem none id s key f r (lookup id r.jobs) refl
    guarded x false v = inr (x, (refl, refl, inr (inl v)))

-- A saved job is what the next read returns, and no other job changes; without an id nothing is
-- saved.
get-save :
    (job : Job) (i : Text) (r : Repository)
    → let p = save none (some job) r in
      ((job.id ≢ [])
        × (p.1 ≡ none)
        × (get none i p.0 ≡ (if text_eq job.id i then ok job else get none i r)))
      ⊎ ((job.id ≡ []) × (p.1 ≢ none) × (p.0 ≡ r))
unfolding save get
get-save job i r = ground (arith, text_eq_iff job.id [], lookup-insert job.id i job r.jobs)
