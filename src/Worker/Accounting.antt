-- ===== src/Worker/Accounting.antt =====
-- What the pool counts and settles, whatever the use case returns.
use image_forge.Prelude.{
  ℕ, suc, ◌+◌, ◌^◌, ◌≤◌, ◌<◌, ◌≡◌, refl, inl, inr, Option, none, some, List, [], ◌∷◌, arith, Text,
  Bool-cases, length,
}
use image_forge.Errors.{job_not_pending, Error, is}
use image_forge.Worker.Pool.{
  Outcome, processed, failed, skipped, outcome_of, Stats, Pool, Acknowledger, count, settle,
  record_outcome, handle, work,
}
use image_forge.Domain.Job.{Job}

-- How a delivery ends on an acknowledging queue: a failed job is given back, all else is removed.
abbrev pub settlement : {W : Type 0} → Acknowledger W → Text → Outcome → W → W
settlement a id failed w = (a.nack id w).0
settlement a id _ w = (a.ack id w).0

-- One delivery runs the use case once, is reported to the observer and counted as its outcome,
-- and is settled by that outcome: removed when processed or skipped, given back when failed.
handle-outcome_of :
    {W : Type 0} (a : Acknowledger W) (execute : Text → W → W × Option Job × Option Error)
    (id : Text) (p : Pool) (w : W)
    → let r = execute id w in
      let o = outcome_of r.2 in handle (some a) execute id p w ≡ (count o p, settlement a id o r.0)
unfolding handle outcome_of record_outcome settle
handle-outcome_of {W} a execute id p w = recorded (execute id w)
  where
    recorded :
        (r : W × Option Job × Option Error)
        → record_outcome (some a) id p r
          ≡ (count (outcome_of r.2) p, settlement a id (outcome_of r.2) r.0)
    recorded (w', job, none) = refl
    recorded (w', job, some e) = ground arith

-- A queue that hands out a job exactly once is not called again.
pub handle-no_acker :
    {W : Type 0} (execute : Text → W → W × Option Job × Option Error) (id : Text) (p : Pool) (w : W)
    → handle none execute id p w ≡ (count (outcome_of (execute id w).2) p, (execute id w).0)
unfolding handle outcome_of record_outcome settle
handle-no_acker {W} execute id p w = recorded (execute id w)
  where
    recorded :
        (r : W × Option Job × Option Error)
        → record_outcome none id p r ≡ (count (outcome_of r.2) p, r.0)
    recorded (w', job, none) = refl
    recorded (w', job, some e) = ground arith

abbrev pub total : Stats → ℕ
total s = s.processed + s.failed + s.skipped

-- The counters agree with the observer's calls.
abbrev pub tally : Outcome → List Outcome → ℕ
tally o [] = 0
tally processed (processed ∷ os) = suc (tally processed os)
tally failed (failed ∷ os) = suc (tally failed os)
tally skipped (skipped ∷ os) = suc (tally skipped os)
tally o (o' ∷ os) = tally o os

pub record Agree (p : Pool) : Type 0 where
  pub processed_tally : p.stats.processed ≡ tally processed p.observed
  pub failed_tally : p.stats.failed ≡ tally failed p.observed
  pub skipped_tally : p.stats.skipped ≡ tally skipped p.observed

tally-le : (o : Outcome) (os : List Outcome) → tally o os ≤ length os
tally-le o [] = omega arith
tally-le o (x ∷ os) = ground (arith, tally-le o os)

count-Agree :
    (o : Outcome) (p : Pool) → Agree p → length p.observed + 1 < 2 ^ 64 → Agree (count o p)
unfolding count
count-Agree o p v h =
    ground (
      arith,
      tally-le processed p.observed,
      tally-le failed p.observed,
      tally-le skipped p.observed,
    )

length-count : (o : Outcome) (p : Pool) → length (count o p).observed ≡ length p.observed + 1
unfolding count
length-count o p = ground arith

module _ {W : Type 0} (acker : Option (Acknowledger W))
    (execute : Text → W → W × Option Job × Option Error) where
  -- One delivery, whatever comes of it.
  handle-count :
      (id : Text) (p : Pool) (w : W) → (o : Outcome) × ((handle acker execute id p w).0 ≡ count o p)
  unfolding handle record_outcome
  handle-count id p w = counted (execute id w)
    where
      counted :
          (r : W × Option Job × Option Error)
          → (o : Outcome) × ((record_outcome acker id p r).0 ≡ count o p)
      counted (w', job, none) = (processed, refl)
      counted (w', job, some e) = elim (Bool-cases (is e job_not_pending)) [
        | inl skip ↦ (skipped, rw (skip, record_outcome) refl)
        | inr fails ↦ (failed, rw (fails, record_outcome) refl)
      ]

  -- After any deliveries fewer than 2 ^ 64, each counter is the number of deliveries that were
  -- reported with its outcome, and every delivery was reported once: none is lost or double counted.
  work-Agree :
      (ids : List Text) (p : Pool) (w : W)
      → Agree p
      → length p.observed + length ids < 2 ^ 64
      → let q = (work acker execute ids p w).0 in
        Agree q × (length q.observed ≡ length p.observed + length ids)
  unfolding work
  work-Agree [] p w v h = (v, omega arith)
  work-Agree (id ∷ ids) p w v h =
      let (o, e) = handle-count id p w in
      let (p', w') = handle acker execute id p w in
      let longer : length p'.observed ≡ length p.observed + 1 = rw e (length-count o p) in
      let agree : Agree p' = rw e (count-Agree o p v (omega arith)) in
      let (rest, all) = work-Agree ids p' w' agree (omega arith) in (rest, omega (arith, all))
