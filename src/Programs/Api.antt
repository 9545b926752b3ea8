-- ===== src/Programs/Api.antt =====
-- cmd/api/main.go, `run` and `shutdownTracing`.
pub mod Released
use image_forge.Prelude.{Option, none, some, [], codes}
use image_forge.Errors.{Error, wrap}
use image_forge.Programs.{deferred}

-- The select after the start of the server: its end, with the error that is not ErrServerClosed, or
-- a signal.
pub data Ending : Type 0 where
  ended : Option Error → Ending
  signalled : Ending

-- The parts that `run` calls.
pub record Calls (W : Type 0) : Type 0 where
  pub setup : W → W × Option Error
  -- Provider.Shutdown
  pub shutdown_provider : W → W × Option Error
  pub log_warning : Error → W → W
  pub open_adapters : W → W × Option Error
  pub close_adapters : W → W
  pub new_issuer : W → W × Option Error
  pub new_api : W → W
  pub close_api : W → W
  pub serve : W → W × Ending
  -- the second call of `stop` does nothing
  pub stop_signals : W → W
  pub shutdown_server : W → W × Option Error
  pub close_server : W → W
  -- what the server's goroutine sends once it has been shut down
  pub serve_result : W → W × Option Error

module _ {W : Type 0} (calls : Calls W) where
  warned : W × Option Error → W
  warned (w, none) = w
  warned (w, some e) = calls.log_warning e w

  -- `shutdownTracing`
  unfoldable pub shutdown_tracing : W → W
  unfolding warned
  shutdown_tracing w = warned (calls.shutdown_provider w)

  stopped : W × Option Error → W × Option Error
  stopped (w, none) = calls.serve_result w
  stopped (w, some e) = (calls.close_server w, some (wrap (codes "graceful shutdown: ") e []))

  served : W × Ending → W × Option Error
  unfolding stopped
  served (w, ended none) = (w, none)
  served (w, ended (some e)) = (w, some (wrap (codes "serve: ") e []))
  served (w, signalled) = stopped (calls.shutdown_server (calls.stop_signals w))

  issued : W × Option Error → W × Option Error
  unfolding served
  issued (w, some e) = (w, some e)
  issued (w, none) = deferred calls.close_api (served (calls.serve (calls.new_api w)))

  opened : W × Option Error → W × Option Error
  unfolding issued
  opened (w, some e) = (w, some e)
  opened (w, none) = deferred calls.close_adapters (issued (calls.new_issuer w))

  traced : W × Option Error → W × Option Error
  unfolding opened shutdown_tracing
  traced (w, some e) = (w, some e)
  traced (w, none) = deferred shutdown_tracing (opened (calls.open_adapters w))

  -- `run`
  unfoldable pub run : W → W × Option Error
  unfolding traced
  run w = deferred calls.stop_signals (traced (calls.setup w))
