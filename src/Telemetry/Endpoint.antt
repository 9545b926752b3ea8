-- ===== src/Telemetry/Endpoint.antt =====
-- internal/telemetry/telemetry.go: the exporter that is built for an endpoint. net/url, net's
-- SplitHostPort and the OTLP exporter are parameters.
pub mod Accepted
use image_forge.Prelude.{
  ℕ, Bool, false, ◌||◌, Option, none, some, List, [], ◌∷◌, ◌++◌, Text, codes, text_eq, has_prefix,
  contains, ◌==◌, if◌then◌else◌, ℤ,
}
use image_forge.Errors.{Error, new, wrap, Result, ok, err}
use image_forge.Domain.Spec.{quote}
use image_forge.Sqsqueue.Open.{atoi}

-- `url.Parse` and the fields that are read or set of its result; `net.SplitHostPort`
pub record Net (U : Type 0) : Type 0 where
  pub parse : Text → Result U
  pub host : U → Text
  pub path : U → Text
  pub set_path : Text → U → U
  pub print : U → Text
  pub split_host_port : Text → Result (Text × Text)

-- The options of otlptracehttp that are used.
pub data ExporterOption : Type 0 where
  with_endpoint_url with_endpoint : Text → ExporterOption
  with_insecure : ExporterOption

-- `otlptracehttp.New`
abbrev pub Otlp : Type 0 → Type 0
Otlp X = List ExporterOption → Result X

abbrev pub export_text : Text → Text
export_text endpoint =
    codes "telemetry: build the OTLP exporter for " ++ quote endpoint ++ codes ": "

abbrev pub traces_path : Text
traces_path = codes "/v1/traces"

-- `strings.ContainsAny`
unfoldable pub contains_any : Text → List ℕ → Bool
contains_any [] chars = false
contains_any (c ∷ s) chars = one_of chars || contains_any s chars
  where
    one_of : List ℕ → Bool
    one_of [] = false
    one_of (d ∷ ds) = (c == d) || one_of ds

module _ {U : Type 0} (net : Net U) where
  path_added : Text → Result U → Text
  path_added endpoint (err e) = endpoint
  path_added endpoint (ok u) = net.print (
      if text_eq (net.path u) [] || text_eq (net.path u) (codes "/")
      then net.set_path traces_path u
      else u)

  -- `withSignalPath`
  unfoldable pub with_signal_path : Text → Text
  unfolding path_added
  with_signal_path endpoint = path_added endpoint (net.parse endpoint)

  url_checked : Text → Result U → Option Error
  url_checked endpoint (err e) = some (wrap (export_text endpoint) e [])
  url_checked endpoint (ok u) =
      if text_eq (net.host u) [] then some (new (export_text endpoint ++ codes "no host")) else none

  port_checked : Text → Text → Result ℤ → Option Error
  port_checked endpoint port (ok n) = none
  port_checked endpoint port (err e) =
      some (new (export_text endpoint ++ quote port ++ codes " is not a port"))

  authority_checked : Text → Result (Text × Text) → Option Error
  unfolding port_checked atoi
  authority_checked endpoint (err e) = some (wrap (export_text endpoint) e [])
  authority_checked endpoint (ok (host, port)) =
      if text_eq host []
      then some (new (export_text endpoint ++ codes "no host"))
      else port_checked endpoint port (atoi port)

  -- `validateEndpoint`
  unfoldable pub validate_endpoint : Text → Option Error
  unfolding url_checked authority_checked contains contains_any
  validate_endpoint endpoint =
      if contains (codes "://") endpoint
      then url_checked endpoint (net.parse endpoint)
      else if contains_any endpoint (codes "/?#")
      then some (
          new (
            export_text endpoint
            ++ codes "a bare endpoint is a host and port, so give a full URL to include a path"))
      else if contains (codes ":") endpoint
      then authority_checked endpoint (net.split_host_port endpoint)
      else none

  -- The switch of `newExporter`.
  unfoldable pub exporter_options : Text → Bool → List ExporterOption
  unfolding with_signal_path has_prefix
  exporter_options endpoint insecure =
      if has_prefix (codes "http://") endpoint
      then with_endpoint_url (with_signal_path endpoint) ∷ with_insecure ∷ []
      else if has_prefix (codes "https://") endpoint
      then with_endpoint_url (with_signal_path endpoint) ∷ []
      else with_endpoint endpoint ∷ (if insecure then with_insecure ∷ [] else [])

  module _ {X : Type 0} (otlp : Otlp X) where
    built : Text → Result X → Result X
    built endpoint (ok x) = ok x
    built endpoint (err e) = err (wrap (export_text endpoint) e [])

    -- `newExporter`
    unfoldable pub new_exporter : Text → Bool → Result X
    unfolding validate_endpoint exporter_options built
    new_exporter endpoint insecure = elim (validate_endpoint endpoint) [
      | some e ↦ err e
      | none ↦ built endpoint (otlp (exporter_options endpoint insecure))
    ]
