-- ===== src/Worker/Pool.antt =====
-- internal/worker/pool.go. A pool's settings and counters, its options, and `handle`, which runs
-- one delivery. `World` holds the queue and everything behind the use case; time spans are
-- nanoseconds. Logging and the trace span are left out: they change nothing that is read back.
use image_forge.Prelude.{
  ℕ, ◌+◌, ◌%◌, ◌^◌, Bool, true, false, Option, none, some, List, [], ◌∷◌, Text, if◌then◌else◌, ℤ,
  pos, pos_part, ltb_ℤ,
}
use image_forge.Errors.{job_not_pending, Error, is}
use image_forge.Domain.Job.{Job}

-- The outcomes reported to an observer.
pub data Outcome : Type 0 where
  processed failed skipped : Outcome

-- `outcomeOf`
unfoldable pub outcome_of : Option Error → Outcome
outcome_of none = processed
outcome_of (some e) = if is e job_not_pending then skipped else failed

-- Atomic 64-bit counters, and what the observer has been told.
pub record Stats : Type 0 where
  pub processed : ℕ
  pub failed : ℕ
  pub skipped : ℕ

pub record Pool : Type 0 where
  pub size : ℕ
  pub shutdown_timeout : ℕ
  -- zero or less: no bound
  pub job_timeout : ℤ
  pub stats : Stats
  -- the observer's calls, the latest first, without their durations
  pub observed : List Outcome

abbrev pub default_size : ℕ
default_size = 4

-- `New` before the options.
unfoldable pub initial : Pool
initial = record {
  size = default_size;
  shutdown_timeout = 30000000000;
  job_timeout = pos 120000000000;
  stats = record { processed = 0; failed = 0; skipped = 0 };
  observed = [];
}

unfoldable pub with_size : ℤ → Pool → Pool
with_size n p = if ltb_ℤ (pos 0) n then record p { size = pos_part n } else p

unfoldable pub with_shutdown_timeout : ℤ → Pool → Pool
with_shutdown_timeout d p =
    if ltb_ℤ (pos 0) d then record p { shutdown_timeout = pos_part d } else p

unfoldable pub with_job_timeout : ℤ → Pool → Pool
with_job_timeout d p = record p { job_timeout = d }

-- An acknowledging queue, if the queue is one.
pub record Acknowledger (W : Type 0) : Type 0 where
  pub ack : Text → W → W × Option Error
  pub nack : Text → W → W × Option Error

abbrev pub u64 : ℕ → ℕ
u64 n = n % 2 ^ 64

-- The counter and the observer's call of each outcome.
unfoldable pub count : Outcome → Pool → Pool
count processed p = record p {
  stats = record (p.stats) { processed = u64 (p.stats.processed + 1) };
  observed = processed ∷ p.observed;
}
count failed p = record p {
  stats = record (p.stats) { failed = u64 (p.stats.failed + 1) };
  observed = failed ∷ p.observed;
}
count skipped p = record p {
  stats = record (p.stats) { skipped = u64 (p.stats.skipped + 1) };
  observed = skipped ∷ p.observed;
}

module _ {W : Type 0} (acker : Option (Acknowledger W)) where
  -- `Pool.settle`: a failure to settle is logged, and no more.
  unfoldable pub settle : Text → Bool → W → W
  settle id finished w = elim acker [
    | none ↦ w
    | some a ↦ elim finished [ true ↦ (a.ack id w).0 | false ↦ (a.nack id w).0 ]
  ]

  -- The switch of `Pool.handle` on what `Execute` returned.
  unfoldable pub record_outcome : Text → Pool → W × Option Job × Option Error → Pool × W
  record_outcome id p (w, job, none) = (count processed p, settle id true w)
  record_outcome id p (w, job, some e) =
      if is e job_not_pending
      then (count skipped p, settle id true w)
      else (count failed p, settle id false w)

  module _ (execute : Text → W → W × Option Job × Option Error) where
    -- `Pool.handle`
    unfoldable pub handle : Text → Pool → W → Pool × W
    handle id p w = record_outcome id p (execute id w)

    -- A worker's loop over the deliveries it takes before the queue closes.
    unfoldable pub work : List Text → Pool → W → Pool × W
    work [] p w = (p, w)
    work (id ∷ ids) p w = let (p', w') = handle id p w in work ids p' w'
