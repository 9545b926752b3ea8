-- ===== src/Metrics.antt =====
-- internal/metrics/metrics.go: the collectors and what changes them, the poll of the queue's depth,
-- and the server's end. Prometheus' collectors are a parameter, over a registry.
pub mod Counted
use image_forge.Prelude.{
  ℕ, Bool, Option, none, some, List, [], ◌∷◌, Text, codes, if◌then◌else◌, ℤ, pos, pos_part, ltb_ℤ,
}
use image_forge.Errors.{Error, Result, ok, err}
use image_forge.Worker.Pool.{Outcome, processed, failed, skipped}

-- The labels of the outcomes, which both packages name.
abbrev pub status_label : Outcome → Text
status_label processed = codes "processed"
status_label failed = codes "failed"
status_label skipped = codes "skipped"

-- The collectors of `Metrics` over the registry `R`: creating a label, `Inc`, `Observe` in
-- nanoseconds, `Set`, and `Inc` of the counter without a label.
pub record Collectors (R : Type 0) : Type 0 where
  pub fresh : R
  pub with_label : Text → R → R
  pub inc : Text → R → R
  pub observe : Text → ℕ → R → R
  pub set_depth : ℤ → R → R
  pub inc_errors : R → R

abbrev pub default_depth_interval : ℕ
default_depth_interval = 15000000000

module _ {R : Type 0} (collectors : Collectors R) where
  labelled : List Outcome → R → R
  labelled [] r = r
  labelled (o ∷ os) r = labelled os (collectors.with_label (status_label o) r)

  -- `New`
  unfoldable pub new_metrics : R
  unfolding labelled
  new_metrics = labelled (processed ∷ failed ∷ skipped ∷ []) collectors.fresh

  -- `Metrics.JobFinished`
  unfoldable pub job_finished : Outcome → ℕ → R → R
  job_finished o elapsed r =
      collectors.observe (status_label o) elapsed (collectors.inc (status_label o) r)

  -- `Metrics.SetQueueDepth`
  unfoldable pub set_queue_depth : ℤ → R → R
  set_queue_depth depth r = collectors.set_depth depth r

  -- `Metrics.ReceiveFailed`
  unfoldable pub receive_failed : R → R
  receive_failed r = collectors.inc_errors r

  -- One read of `PollDepth`: a failing one is skipped.
  unfoldable pub read_depth : Result ℤ → R → R
  unfolding set_queue_depth
  read_depth (ok n) r = set_queue_depth n r
  read_depth (err e) r = r

  ticked : List (Result ℤ) → R → R
  unfolding read_depth
  ticked [] r = r
  ticked (reading ∷ readings) r = ticked readings (read_depth reading r)

  -- `PollDepth` up to the end of its context: by what the queue answers to the first read and at
  -- each tick, if the queue can tell.
  unfoldable pub poll_depth : Option (Result ℤ × List (Result ℤ)) → R → R
  unfolding ticked
  poll_depth none r = r
  poll_depth (some (first, readings)) r = ticked readings (read_depth first r)

-- The interval of `PollDepth`.
unfoldable pub depth_interval : ℤ → ℕ
depth_interval d = if ltb_ℤ (pos 0) d then pos_part d else default_depth_interval

-- `Server.ListenAndServe`, by what net/http's returns and whether that is ErrServerClosed.
unfoldable pub listen_and_serve : Option (Error × Bool) → Option Error
listen_and_serve none = none
listen_and_serve (some (e, server_closed)) = if server_closed then none else some e

-- `Server.Shutdown`, over net/http's Shutdown and Close.
unfoldable pub shutdown : {W : Type 0} → (W → W × Option Error) → (W → W) → W → W × Option Error
shutdown stop close w = elim (stop w).1 [
  | none ↦ ((stop w).0, none)
  | some e ↦ (close (stop w).0, some e)
]
