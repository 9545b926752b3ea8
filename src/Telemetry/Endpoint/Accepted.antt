-- ===== src/Telemetry/Endpoint/Accepted.antt =====
-- Which endpoints the exporter is built for, and where it then sends spans.
use image_forge.Prelude.{
  ◌≡◌, refl, ◌≢◌, inl, inr, Bool, true, false, none, [], arith, Text, codes, text_eq, contains,
  Bool-cases, Option-cases, ℤ,
}
use image_forge.Errors.{Result, ok, err, Result-cases}
use image_forge.Sqsqueue.Open.{atoi}
use image_forge.Telemetry.Endpoint.{
  Net, Otlp, contains_any, url_checked, port_checked, authority_checked, validate_endpoint,
  exporter_options, built, new_exporter,
}

module _ {U : Type 0} (net : Net U) where
  -- The forms of an endpoint that is accepted: a URL of any scheme that parses and has a host, text
  -- without a slash, a question mark, a hash or a colon, or a host with a number for its port.
  pub data HasForm (endpoint : Text) : Type 0 where
    url :
        (u : U)
        → contains (codes "://") endpoint ≡ true
        → net.parse endpoint ≡ ok u
        → net.host u ≢ []
        → HasForm endpoint
    host :
        contains (codes "://") endpoint ≡ false
        → contains_any endpoint (codes "/?#") ≡ false
        → contains (codes ":") endpoint ≡ false
        → HasForm endpoint
    host_port :
        (h port : Text) (n : ℤ)
        → contains (codes "://") endpoint ≡ false
        → contains_any endpoint (codes "/?#") ≡ false
        → net.split_host_port endpoint ≡ ok (h, port)
        → h ≢ []
        → atoi port ≡ ok n
        → HasForm endpoint

  url-HasForm :
      (endpoint : Text) (r : Result U)
      → contains (codes "://") endpoint ≡ true
      → net.parse endpoint ≡ r
      → url_checked net endpoint r ≡ none
      → HasForm endpoint
  unfolding url_checked text_eq
  url-HasForm endpoint (ok u) h p v = url u h p λ e. ground (arith, e, v)
  url-HasForm endpoint (err e) h p v = ground arith

  port-HasForm :
      (endpoint : Text) (r : Result (Text × Text))
      → contains (codes "://") endpoint ≡ false
      → contains_any endpoint (codes "/?#") ≡ false
      → net.split_host_port endpoint ≡ r
      → authority_checked net endpoint r ≡ none
      → HasForm endpoint
  unfolding authority_checked port_checked text_eq
  port-HasForm endpoint (err e) h a s v = ground arith
  port-HasForm endpoint (ok (name, port)) h a s v = elim (Result-cases (atoi port)) [
    | inl (n, e) ↦ host_port name port n h a s (λ i. ground (arith, i, v)) e
    | inr (x, e) ↦ ground (arith, e, v)
  ]

  accepted-HasForm : (endpoint : Text) → validate_endpoint net endpoint ≡ none → HasForm endpoint
  unfolding validate_endpoint
  accepted-HasForm endpoint v = elim (Bool-cases (contains (codes "://") endpoint)) [
    | inl h ↦ url-HasForm endpoint (net.parse endpoint) h refl (rw h at v)
    | inr h ↦ elim (Bool-cases (contains_any endpoint (codes "/?#"))) [
      | inl a ↦ ground (arith, h, a, v)
      | inr a ↦ elim (Bool-cases (contains (codes ":") endpoint)) [
        | inl c ↦ port-HasForm endpoint (net.split_host_port endpoint) h a refl (rw (h, a, c) at v)
        | inr c ↦ host h a c
      ]
    ]
  ]

  built-ok :
      {X : Type 0} (otlp : Otlp X) (endpoint : Text) (r : Result X) (x : X)
      → built net otlp endpoint r ≡ ok x
      → r ≡ ok x
  unfolding built
  built-ok otlp endpoint (ok y) x h = h
  built-ok otlp endpoint (err e) x h = absurd (ground arith)

  -- An exporter is built for an endpoint of an accepted form only, of the options for it.
  pub new_exporter-HasForm :
      {X : Type 0} (otlp : Otlp X) (endpoint : Text) (insecure : Bool) (x : X)
      → new_exporter net otlp endpoint insecure ≡ ok x
      → HasForm endpoint × (otlp (exporter_options net endpoint insecure) ≡ ok x)
  unfolding new_exporter
  new_exporter-HasForm otlp endpoint insecure x h =
      elim (Option-cases (validate_endpoint net endpoint)) [
        | inl e ↦ (
          accepted-HasForm endpoint e,
          built-ok otlp endpoint (otlp (exporter_options net endpoint insecure)) x
              (rw (e, new_exporter) at h),
        )
        | inr (e, r) ↦ ground (arith, r, h)
      ]
