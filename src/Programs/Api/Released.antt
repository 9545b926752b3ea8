-- ===== src/Programs/Api/Released.antt =====
-- What the API process still holds when `run` returns.
use image_forge.Prelude.{
  ◌≡◌, refl, ap, ◌∙◌, subst, ◌⊎◌, inl, inr, Bool, true, false, Option, none, some, List, [], ◌∷◌,
  codes, if◌then◌else◌,
}
use image_forge.Errors.{Error, wrap}
use image_forge.Programs.{
  Resource, tracing, adapters, api, listener, connections, release, deferred,
}
use image_forge.Programs.Api.{
  Ending, ended, signalled, Calls, warned, shutdown_tracing, stopped, served, issued, opened,
  traced, run,
}

-- What a call that fails does not acquire.
abbrev pub acquired : Option Error → Resource → List Resource → List Resource
acquired none x held = x ∷ held
acquired (some e) x held = held

-- What a server that runs may hold: its listener, if it could listen, and connections.
abbrev pub open_server : Bool → Bool → List Resource → List Resource
open_server listens connected held =
    let inner = if connected then connections ∷ held else held in
    if listens then listener ∷ inner else inner

-- What is held when the select after the start of the server is done. A server that has ended with
-- an error of its own has closed its listener, and may have connections still; a signal may come
-- before the listener is open, after it has failed, or at any time between.
abbrev pub Serving : Ending → List Resource → List Resource → Type 0
Serving (ended none) before held = held ≡ before
Serving (ended (some e)) before held = (held ≡ before) ⊎ (held ≡ connections ∷ before)
Serving signalled before held =
    (listens : Bool) × (connected : Bool) × (held ≡ open_server listens connected before)

-- What the parts do with what the process holds. `Shutdown` of net/http closes the listeners first
-- and then waits for the connections, of which some may be left where it fails; `Close` closes both.
pub record Laws {W : Type 0} (calls : Calls W) : Type 0 where
  pub held : W → List Resource
  pub setup_holds : (w : W) → held (calls.setup w).0 ≡ acquired (calls.setup w).1 tracing (held w)
  pub shutdown_provider_holds :
      (w : W) → held (calls.shutdown_provider w).0 ≡ release tracing (held w)
  pub log_warning_holds : (e : Error) (w : W) → held (calls.log_warning e w) ≡ held w
  pub open_adapters_holds :
      (w : W)
      → held (calls.open_adapters w).0 ≡ acquired (calls.open_adapters w).1 adapters (held w)
  pub close_adapters_holds : (w : W) → held (calls.close_adapters w) ≡ release adapters (held w)
  pub new_issuer_holds : (w : W) → held (calls.new_issuer w).0 ≡ held w
  pub new_api_holds : (w : W) → held (calls.new_api w) ≡ api ∷ held w
  pub close_api_holds : (w : W) → held (calls.close_api w) ≡ release api (held w)
  pub serve_holds : (w : W) → Serving (calls.serve w).1 (held w) (held (calls.serve w).0)
  pub stop_signals_holds : (w : W) → held (calls.stop_signals w) ≡ held w
  pub shutdown_server_closes :
      (w : W)
      → (calls.shutdown_server w).1 ≡ none
      → held (calls.shutdown_server w).0 ≡ release connections (release listener (held w))
  pub shutdown_server_fails :
      (w : W) (e : Error)
      → (calls.shutdown_server w).1 ≡ some e
      → (held (calls.shutdown_server w).0 ≡ release listener (held w))
        ⊎ (held (calls.shutdown_server w).0 ≡ release connections (release listener (held w)))
  pub close_server_holds :
      (w : W) → held (calls.close_server w) ≡ release connections (release listener (held w))
  pub serve_result_holds : (w : W) → held (calls.serve_result w).0 ≡ held w

module _ {W : Type 0} (calls : Calls W) (laws : Laws calls) where
  open laws use {held}

  warned-held :
      (x : W × Option Error) (h : List Resource) → held x.0 ≡ h → held (warned calls x) ≡ h
  unfolding warned
  warned-held (w, none) h e = e
  warned-held (w, some x) h e = laws.log_warning_holds x w ∙ e

  shutdown_tracing-held : (w : W) → held (shutdown_tracing calls w) ≡ release tracing (held w)
  unfolding shutdown_tracing
  shutdown_tracing-held w = warned-held _ _ (laws.shutdown_provider_holds w)

  -- Within a server's run, tracing, adapters and the API are held.
  abbrev within : List Resource
  within = api ∷ adapters ∷ tracing ∷ []

  -- All that was acquired is released but for connections of a server that ended by itself, and
  -- then that is the error.
  abbrev pub Leaves : List Resource → W × Option Error → Type 0
  Leaves base r =
      (held r.0 ≡ base)
      ⊎ ((held r.0 ≡ connections ∷ base) × (e : Error) × (r.1 ≡ some (wrap (codes "serve: ") e [])))

  closed-server :
      (listens connected : Bool)
      → release connections (release listener (open_server listens connected within)) ≡ within
  unfolding release
  closed-server true true = refl
  closed-server true false = refl
  closed-server false true = refl
  closed-server false false = refl

  -- A server is closed by `Close`, whatever a failed `Shutdown` has left.
  reclosed-server :
      (listens connected : Bool) (h : List Resource)
      → let x = release listener (open_server listens connected within) in
        (h ≡ x) ⊎ (h ≡ release connections x) → release connections (release listener h) ≡ within
  unfolding release
  reclosed-server true true h s = elim s [ inl e ↦ rw e refl | inr e ↦ rw e refl ]
  reclosed-server true false h s = elim s [ inl e ↦ rw e refl | inr e ↦ rw e refl ]
  reclosed-server false true h s = elim s [ inl e ↦ rw e refl | inr e ↦ rw e refl ]
  reclosed-server false false h s = elim s [ inl e ↦ rw e refl | inr e ↦ rw e refl ]

  stopped-held :
      (x : W × Option Error) (listens connected : Bool)
      → (x.1 ≡ none
          → held x.0
            ≡ release connections (release listener (open_server listens connected within)))
      → ((e : Error)
          → x.1 ≡ some e
          → let y = release listener (open_server listens connected within) in
            (held x.0 ≡ y) ⊎ (held x.0 ≡ release connections y))
      → held (stopped calls x).0 ≡ within
  unfolding stopped
  stopped-held (w, none) l c h f = laws.serve_result_holds w ∙ h refl ∙ closed-server l c
  stopped-held (w, some e) l c h f =
      laws.close_server_holds w ∙ reclosed-server l c (held w) (f e refl)

  served-held : (x : W × Ending) → Serving x.1 within (held x.0) → Leaves within (served calls x)
  unfolding served
  served-held (w, ended none) h = inl h
  served-held (w, ended (some e)) h = elim h [ inl a ↦ inl a | inr a ↦ inr (a, e, refl) ]
  served-held (w, signalled) (l, c, h) =
      let now : held (calls.stop_signals w) ≡ open_server l c within =
        laws.stop_signals_holds w ∙ h in
      inl (
        stopped-held (calls.shutdown_server (calls.stop_signals w)) l c
          (λ n.
            laws.shutdown_server_closes (calls.stop_signals w) n
            ∙ ap (λ k. release connections (release listener k)) now)
          (λ e f.
            subst
              (λ k.
                (held (calls.shutdown_server (calls.stop_signals w)).0 ≡ release listener k)
                ⊎ (held (calls.shutdown_server (calls.stop_signals w)).0
                    ≡ release connections (release listener k)))
              now (laws.shutdown_server_fails (calls.stop_signals w) e f)))

  -- A deferred call that releases a resource of its own.
  deferred-Leaves :
      (x : Resource) (base : List Resource) (cleanup : W → W) (r : W × Option Error)
      → ((w : W) → held (cleanup w) ≡ release x (held w))
      → release x (x ∷ base) ≡ base
      → release x (connections ∷ x ∷ base) ≡ connections ∷ base
      → Leaves (x ∷ base) r
      → Leaves base (deferred cleanup r)
  deferred-Leaves x base cleanup (w, o) law one two l = elim l [
    | inl h ↦ inl (law w ∙ ap (release x) h ∙ one)
    | inr (h, e, q) ↦ inr (law w ∙ ap (release x) h ∙ two, e, q)
  ]

  issued-held :
      (x : W × Option Error)
      → held x.0 ≡ adapters ∷ tracing ∷ []
      → Leaves (adapters ∷ tracing ∷ []) (issued calls x)
  unfolding issued release
  issued-held (w, some e) h = inl h
  issued-held (w, none) h =
      let now : held (calls.new_api w) ≡ within = laws.new_api_holds w ∙ ap (λ k. api ∷ k) h in
      deferred-Leaves api (adapters ∷ tracing ∷ []) calls.close_api
        (served calls (calls.serve (calls.new_api w))) laws.close_api_holds refl refl
        (served-held (calls.serve (calls.new_api w)) (
          subst
            (λ k.
              Serving (calls.serve (calls.new_api w)).1 k (held (calls.serve (calls.new_api w)).0))
            now (laws.serve_holds (calls.new_api w))))

  opened-held :
      (x : W × Option Error)
      → held x.0 ≡ acquired x.1 adapters (tracing ∷ [])
      → Leaves (tracing ∷ []) (opened calls x)
  unfolding opened release
  opened-held (w, some e) h = inl h
  opened-held (w, none) h =
      deferred-Leaves adapters (tracing ∷ []) calls.close_adapters
        (issued calls (calls.new_issuer w)) laws.close_adapters_holds refl refl
        (issued-held (calls.new_issuer w) (laws.new_issuer_holds w ∙ h))

  traced-held :
      (x : W × Option Error) → held x.0 ≡ acquired x.1 tracing [] → Leaves [] (traced calls x)
  unfolding traced release
  traced-held (w, some e) h = inl h
  traced-held (w, none) h =
      deferred-Leaves tracing [] (shutdown_tracing calls) (opened calls (calls.open_adapters w))
        shutdown_tracing-held refl refl
        (opened-held (calls.open_adapters w)
          (laws.open_adapters_holds w ∙ ap (acquired (calls.open_adapters w).1 adapters) h))

  -- Whichever part fails, and however the server ends, `run` returns with everything released that
  -- it has acquired: tracing, the adapters, the API, the listener and, unless the server has ended
  -- with an error of its own, which is then returned, its connections.
  pub run-releases : (w : W) → held w ≡ [] → Leaves [] (run calls w)
  unfolding run
  run-releases w h =
      let r = traced calls (calls.setup w) in
      elim (traced-held (calls.setup w)
        (laws.setup_holds w ∙ ap (acquired (calls.setup w).1 tracing) h)) [
          | inl a ↦ inl (laws.stop_signals_holds r.0 ∙ a)
          | inr (a, e, q) ↦ inr (laws.stop_signals_holds r.0 ∙ a, e, q)
        ]
