-- ===== src/Examples/Processes.antt =====
-- A request whose handler panics, and the two processes to their ends.
use image_forge.Prelude.{
  ℕ, suc, ◌≡◌, refl, ◌⊎◌, inl, true, false, none, some, List, [], ◌∷◌, arith, Text, codes, text_eq,
  has_prefix,
}
use image_forge.Errors.{canceled, new, sentinel, Result, ok}
use image_forge.Httpapi.Writer.{status_of, Incoming, ProblemDetail}
use image_forge.Httpapi.Middleware.{other, Exchange, Handler, is_probe, without_wildcards, stacked}
use image_forge.Httpapi.Middleware.Observed.{entered, IsObserved, stacked-IsObserved}
use image_forge.Programs.{
  Resource, tracing, adapters, api, listener, connections, processor, metrics, release,
}
use image_forge.Programs.Api
use image_forge.Programs.Api.Released as ApiReleased
use image_forge.Programs.Worker
use image_forge.Programs.Worker.Released as WorkerReleased

abbrev marshal : ProblemDetail → Result Text
marshal p = ok (p.title)

abbrev polled : Incoming
polled = record {
  method = codes "GET";
  path = codes "/jobs/a1";
  request_id = codes "r1";
  context = record {
    span_context = record {
      has_trace_id = true;
      is_valid = true;
      trace_id = codes "4bf9";
      span_id = codes "00f0";
    };
    job = none;
  };
  pattern = some (codes "/jobs/{id}");
  recording = true;
}

abbrev fresh_exchange : Exchange ℕ
fresh_exchange = record {
  writer = record { headers = []; sent = none; body = [] };
  span_name = none;
  log = [];
  world = 0;
}

abbrev panicking : Handler ℕ
panicking e = (record e { world = suc e.world }, some (other (codes "boom")))

stacked-IsObserved_example :
    IsObserved marshal polled
      (panicking (entered marshal polled fresh_exchange))
      (stacked marshal polled panicking fresh_exchange)
stacked-IsObserved_example = stacked-IsObserved marshal polled panicking fresh_exchange

-- The client gets a 500, and its identifiers.
answered_500 : status_of (stacked marshal polled panicking fresh_exchange).0.writer ≡ 500
unfolding status_of stacked image_forge.Telemetry.Logging.trace_id_of
answered_500 = refl

routes :
    (without_wildcards (codes "/api/*/jobs/{id}") ≡ codes "/api/jobs/{id}")
    × (is_probe (codes "/healthz") ≡ true)
    × (is_probe (codes "/health") ≡ false)
unfolding without_wildcards is_probe has_prefix text_eq
routes = (refl, refl, refl)

-- A server that gets a signal and does not stop in time, over what the process holds.
abbrev stuck_api : Api.Calls (List Resource)
stuck_api = record {
  setup = λ w. (tracing ∷ w, none);
  shutdown_provider = λ w. (release tracing w, some (sentinel canceled));
  log_warning = λ e w. w;
  open_adapters = λ w. (adapters ∷ w, none);
  close_adapters = λ w. release adapters w;
  new_issuer = λ w. (w, none);
  new_api = λ w. api ∷ w;
  close_api = λ w. release api w;
  serve = λ w. (listener ∷ connections ∷ w, Api.signalled);
  stop_signals = λ w. w;
  shutdown_server = λ w. (release listener w, some (new (codes "timeout")));
  close_server = λ w. release connections (release listener w);
  serve_result = λ w. (w, none);
}

abbrev stuck_api_laws : ApiReleased.Laws stuck_api
stuck_api_laws = record {
  held = λ w. w;
  setup_holds = λ w. refl;
  shutdown_provider_holds = λ w. refl;
  log_warning_holds = λ e w. refl;
  open_adapters_holds = λ w. refl;
  close_adapters_holds = λ w. refl;
  new_issuer_holds = λ w. refl;
  new_api_holds = λ w. refl;
  close_api_holds = λ w. refl;
  serve_holds = λ w. (true, true, refl);
  stop_signals_holds = λ w. refl;
  shutdown_server_closes = λ w h. absurd (ground arith);
  shutdown_server_fails = λ w e h. inl refl;
  close_server_holds = λ w. refl;
  serve_result_holds = λ w. refl;
}

run-releases_example : ApiReleased.Leaves stuck_api stuck_api_laws [] (Api.run stuck_api [])
run-releases_example = ApiReleased.run-releases stuck_api stuck_api_laws [] refl

-- A worker that is given a path which cannot be opened.
abbrev unseeded_worker : Worker.Calls (List Resource)
unseeded_worker = record {
  setup = λ w. (tracing ∷ w, none);
  shutdown_provider = λ w. (release tracing w, none);
  open_adapters = λ w. (adapters ∷ w, none);
  close_adapters = λ w. release adapters w;
  new_processor = λ w. (processor ∷ w, none);
  shutdown_processor = λ w. release processor w;
  serve_metrics = λ w. metrics ∷ w;
  poll_depth = none;
  seed = λ args w. (w, some (new (codes "seed: no such file")));
  run_pool = λ w. (w, none);
  shutdown_metrics = λ w. (release metrics w, none);
  metrics_result = λ w. (w, none);
  log_warning = λ e w. w;
  stop_signals = λ w. w;
}

abbrev unseeded_worker_laws : WorkerReleased.Laws unseeded_worker
unseeded_worker_laws = record {
  held = λ w. w;
  setup_holds = λ w. refl;
  shutdown_provider_holds = λ w. refl;
  open_adapters_holds = λ w. refl;
  close_adapters_holds = λ w. refl;
  new_processor_holds = λ w. refl;
  shutdown_processor_holds = λ w. refl;
  serve_metrics_holds = λ w. refl;
  poll_depth_holds = λ poll w h. ground (arith, h);
  seed_holds = λ args w. refl;
  run_pool_holds = λ w. refl;
  shutdown_metrics_holds = λ w. refl;
  metrics_result_holds = λ w. refl;
  log_warning_holds = λ e w. refl;
  stop_signals_holds = λ w. refl;
}

worker_run-releases_example :
    (unseeded_worker_laws.held (Worker.run unseeded_worker (codes "a.png" ∷ []) []).0 ≡ [])
    ⊎ ((unseeded_worker_laws.held (Worker.run unseeded_worker (codes "a.png" ∷ []) []).0
          ≡ metrics ∷ [])
        × WorkerReleased.SeedFailed unseeded_worker unseeded_worker_laws
            (codes "a.png" ∷ [])
            (Worker.run unseeded_worker (codes "a.png" ∷ []) []).1)
worker_run-releases_example =
    WorkerReleased.worker_run-releases unseeded_worker unseeded_worker_laws (codes "a.png" ∷ []) []
      refl
