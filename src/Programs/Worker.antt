-- ===== src/Programs/Worker.antt =====
-- cmd/worker/main.go, `run` and `shutdownTracing`.
pub mod Released
use image_forge.Prelude.{Option, none, some, List, [], ◌∷◌, Text, codes}
use image_forge.Errors.{Error, wrap}
use image_forge.Programs.{deferred}

-- The parts that `run` calls.
pub record Calls (W : Type 0) : Type 0 where
  pub setup : W → W × Option Error
  -- Provider.Shutdown
  pub shutdown_provider : W → W × Option Error
  pub open_adapters : W → W × Option Error
  pub close_adapters : W → W
  pub new_processor : W → W × Option Error
  pub shutdown_processor : W → W
  -- the goroutines of the metrics server and, if the queue can tell its depth, of its poll
  pub serve_metrics : W → W
  pub poll_depth : Option (W → W)
  pub seed : List Text → W → W × Option Error
  pub run_pool : W → W × Option Error
  pub shutdown_metrics : W → W × Option Error
  -- what the goroutine of the metrics server sends in the end
  pub metrics_result : W → W × Option Error
  pub log_warning : Error → W → W
  pub stop_signals : W → W

module _ {W : Type 0} (calls : Calls W) where
  warned : W × Option Error → W
  warned (w, none) = w
  warned (w, some e) = calls.log_warning e w

  -- `shutdownTracing`
  unfoldable pub shutdown_tracing : W → W
  unfolding warned
  shutdown_tracing w = warned (calls.shutdown_provider w)

  pool_result : Option Error → Option Error
  pool_result none = none
  pool_result (some e) = some (wrap (codes "pool: ") e [])

  -- The metrics server is shut down after the pool, whatever the pool returned.
  drained : W × Option Error → W × Option Error
  unfolding warned pool_result
  drained (w, e) =
      (warned (calls.metrics_result (warned (calls.shutdown_metrics w))), pool_result e)

  seeded : W × Option Error → W × Option Error
  unfolding drained
  seeded (w, some e) = (w, some e)
  seeded (w, none) = drained (calls.run_pool w)

  polling : W → W
  polling w = elim calls.poll_depth [ none ↦ w | some poll ↦ poll w ]

  processing : List Text → W × Option Error → W × Option Error
  unfolding seeded polling
  processing args (w, some e) = (w, some (wrap (codes "image processor: ") e []))
  processing [] (w, none) =
      deferred calls.shutdown_processor (seeded (polling (calls.serve_metrics w), none))
  processing (arg ∷ args) (w, none) =
      deferred calls.shutdown_processor
        (seeded (calls.seed (arg ∷ args) (polling (calls.serve_metrics w))))

  opened : List Text → W × Option Error → W × Option Error
  unfolding processing
  opened args (w, some e) = (w, some e)
  opened args (w, none) = deferred calls.close_adapters (processing args (calls.new_processor w))

  traced : List Text → W × Option Error → W × Option Error
  unfolding opened shutdown_tracing
  traced args (w, some e) = (w, some e)
  traced args (w, none) = deferred shutdown_tracing (opened args (calls.open_adapters w))

  -- `run`
  unfoldable pub run : List Text → W → W × Option Error
  unfolding traced
  run args w = deferred calls.stop_signals (traced args (calls.setup w))
