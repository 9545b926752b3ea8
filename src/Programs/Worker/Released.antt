-- ===== src/Programs/Worker/Released.antt =====
-- What the worker process still holds when `run` returns, and what it returns.
use image_forge.Prelude.{
  ◌≡◌, refl, sym, ap, ◌∙◌, ◌≢◌, ◌⊎◌, inl, inr, Option, none, some, List, [], ◌∷◌, arith, Text,
  Option-cases,
}
use image_forge.Errors.{Error}
use image_forge.Programs.{Resource, tracing, adapters, processor, metrics, release, deferred}
use image_forge.Programs.Api.Released.{acquired}
use image_forge.Programs.Worker.{
  Calls, warned, shutdown_tracing, drained, seeded, polling, processing, opened, traced, run,
}

-- What the parts do with what the process holds. The metrics server is gone once Shutdown has
-- returned, since it is closed where it does not stop in time.
pub record Laws {W : Type 0} (calls : Calls W) : Type 0 where
  pub held : W → List Resource
  pub setup_holds : (w : W) → held (calls.setup w).0 ≡ acquired (calls.setup w).1 tracing (held w)
  pub shutdown_provider_holds :
      (w : W) → held (calls.shutdown_provider w).0 ≡ release tracing (held w)
  pub open_adapters_holds :
      (w : W)
      → held (calls.open_adapters w).0 ≡ acquired (calls.open_adapters w).1 adapters (held w)
  pub close_adapters_holds : (w : W) → held (calls.close_adapters w) ≡ release adapters (held w)
  pub new_processor_holds :
      (w : W)
      → held (calls.new_processor w).0 ≡ acquired (calls.new_processor w).1 processor (held w)
  pub shutdown_processor_holds :
      (w : W) → held (calls.shutdown_processor w) ≡ release processor (held w)
  pub serve_metrics_holds : (w : W) → held (calls.serve_metrics w) ≡ metrics ∷ held w
  pub poll_depth_holds :
      (poll : W → W) (w : W) → calls.poll_depth ≡ some poll → held (poll w) ≡ held w
  pub seed_holds : (args : List Text) (w : W) → held (calls.seed args w).0 ≡ held w
  pub run_pool_holds : (w : W) → held (calls.run_pool w).0 ≡ held w
  pub shutdown_metrics_holds :
      (w : W) → held (calls.shutdown_metrics w).0 ≡ release metrics (held w)
  pub metrics_result_holds : (w : W) → held (calls.metrics_result w).0 ≡ held w
  pub log_warning_holds : (e : Error) (w : W) → held (calls.log_warning e w) ≡ held w
  pub stop_signals_holds : (w : W) → held (calls.stop_signals w) ≡ held w

module _ {W : Type 0} (calls : Calls W) (laws : Laws calls) where
  open laws use {held}

  warned-held :
      (x : W × Option Error) (h : List Resource) → held x.0 ≡ h → held (warned calls x) ≡ h
  unfolding warned
  warned-held (w, none) h e = e
  warned-held (w, some x) h e = laws.log_warning_holds x w ∙ e

  shutdown_tracing-held : (w : W) → held (shutdown_tracing calls w) ≡ release tracing (held w)
  unfolding shutdown_tracing
  shutdown_tracing-held w = warned-held _ _ (laws.shutdown_provider_holds w)

  abbrev within : List Resource
  within = processor ∷ adapters ∷ tracing ∷ []

  drained-held :
      (x : W × Option Error) → held x.0 ≡ metrics ∷ within → held (drained calls x).0 ≡ within
  unfolding drained release
  drained-held (w, e) h = warned-held _ _ (
      laws.metrics_result_holds _
      ∙ warned-held _ _ (laws.shutdown_metrics_holds w ∙ ap (release metrics) h))

  polling-held : (w : W) → held (polling calls w) ≡ held w
  unfolding polling
  polling-held w = elim (Option-cases calls.poll_depth) [
    | inl n ↦ rw n refl
    | inr (poll, s) ↦ rw s (laws.poll_depth_holds poll w s)
  ]

  metrics-held :
      (w : W) → held w ≡ within → held (polling calls (calls.serve_metrics w)) ≡ metrics ∷ within
  metrics-held w h = polling-held _ ∙ laws.serve_metrics_holds w ∙ ap (λ k. metrics ∷ k) h

  -- A seed of some paths has failed, which is what is returned.
  abbrev pub SeedFailed : List Text → Option Error → Type 0
  SeedFailed args result =
      (args ≢ []) × (u : W) × (e : Error) × ((calls.seed args u).1 ≡ some e) × (result ≡ some e)

  -- Besides what is below, nothing is held, or the metrics server after a failed seed.
  Ends : List Text → List Resource → W × Option Error → Type 0
  Ends args below x = (held x.0 ≡ below) ⊎ ((held x.0 ≡ metrics ∷ below) × SeedFailed args x.1)

  deferred-Ends :
      (args : List Text) (cleanup : W → W) (r : Resource) (below : List Resource)
      (x : W × Option Error)
      → ((w : W) → held (cleanup w) ≡ release r (held w))
      → release r (r ∷ below) ≡ below
      → release r (metrics ∷ r ∷ below) ≡ metrics ∷ below
      → Ends args (r ∷ below) x
      → Ends args below (deferred cleanup x)
  unfolding Ends
  deferred-Ends args cleanup r below (w, e) law here under (inl h) =
      inl (law w ∙ ap (release r) h ∙ here)
  deferred-Ends args cleanup r below (w, e) law here under (inr (h, f)) =
      inr (law w ∙ ap (release r) h ∙ under, f)

  -- After a seed of paths, from the state before it.
  seeded-Ends :
      (args : List Text) (u : W)
      → args ≢ []
      → held u ≡ metrics ∷ within
      → Ends args within (seeded calls (calls.seed args u))
  unfolding seeded Ends
  seeded-Ends args u given h = split (calls.seed args u) refl
    where
      split : (x : W × Option Error) → calls.seed args u ≡ x → Ends args within (seeded calls x)
      split (w, none) e = inl (
          drained-held (calls.run_pool w)
            (laws.run_pool_holds w ∙ sym (ap (λ y. held y.0) e) ∙ laws.seed_holds args u ∙ h))
      split (w, some f) e = inr (
        sym (ap (λ y. held y.0) e) ∙ laws.seed_holds args u ∙ h,
        (given, u, f, ap (λ y. y.1) e, refl),
      )

  processing-Ends :
      (args : List Text) (x : W × Option Error)
      → held x.0 ≡ acquired x.1 processor (adapters ∷ tracing ∷ [])
      → Ends args (adapters ∷ tracing ∷ []) (processing calls args x)
  unfolding processing release seeded Ends
  processing-Ends args (w, some e) h = inl h
  processing-Ends [] (w, none) h =
      deferred-Ends [] calls.shutdown_processor processor _ _ laws.shutdown_processor_holds refl
        refl
        (inl (
          drained-held (calls.run_pool (polling calls (calls.serve_metrics w)))
            (laws.run_pool_holds _ ∙ metrics-held w h)))
  processing-Ends (arg ∷ args) (w, none) h =
      deferred-Ends (arg ∷ args) calls.shutdown_processor processor _ _
        laws.shutdown_processor_holds refl refl
        (seeded-Ends (arg ∷ args) _ (λ e. ground arith) (metrics-held w h))

  opened-Ends :
      (args : List Text) (x : W × Option Error)
      → held x.0 ≡ acquired x.1 adapters (tracing ∷ [])
      → Ends args (tracing ∷ []) (opened calls args x)
  unfolding opened release Ends
  opened-Ends args (w, some e) h = inl h
  opened-Ends args (w, none) h =
      deferred-Ends args calls.close_adapters adapters _ _ laws.close_adapters_holds refl refl (
        processing-Ends args _
          (laws.new_processor_holds w ∙ ap (acquired (calls.new_processor w).1 processor) h))

  traced-Ends :
      (args : List Text) (x : W × Option Error)
      → held x.0 ≡ acquired x.1 tracing []
      → Ends args [] (traced calls args x)
  unfolding traced release Ends
  traced-Ends args (w, some e) h = inl h
  traced-Ends args (w, none) h =
      deferred-Ends args (shutdown_tracing calls) tracing _ _ shutdown_tracing-held refl refl (
        opened-Ends args _
          (laws.open_adapters_holds w ∙ ap (acquired (calls.open_adapters w).1 adapters) h))

  -- Whichever part fails, `run` returns with everything released that it has acquired, tracing, the
  -- adapters, the image processor and the metrics server, but for one case: after the seed of a path
  -- has failed, which is the error that it returns, the metrics server is left running.
  pub worker_run-releases :
      (args : List Text) (w : W)
      → held w ≡ []
      → (held (run calls args w).0 ≡ [])
        ⊎ ((held (run calls args w).0 ≡ metrics ∷ []) × SeedFailed args (run calls args w).1)
  unfolding run Ends
  worker_run-releases args w h =
      elim (traced-Ends args (calls.setup w)
        (laws.setup_holds w ∙ ap (acquired (calls.setup w).1 tracing) h)) [
          | inl e ↦ inl (laws.stop_signals_holds _ ∙ e)
          | inr (e, f) ↦ inr (laws.stop_signals_holds _ ∙ e, f)
        ]
