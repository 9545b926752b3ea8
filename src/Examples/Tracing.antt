-- ===== src/Examples/Tracing.antt =====
-- Tracing that is set up, a log record that is stamped, and a trace that crosses the queue.
use image_forge.Prelude.{
  ℕ, ◌≡◌, refl, true, false, none, some, List, [], ◌∷◌, ◌++◌, arith, Text, codes, text_eq,
  has_prefix, contains, cut, lookup, insert, ltb, ◌==◌, pos,
}
use image_forge.Errors.{new, Result, ok, err}
use image_forge.Sqsqueue.Queue.{encode_meta, decode_meta}
use image_forge.Config.Telemetry.{Tracing}
use image_forge.Telemetry.Endpoint.{
  Net, ExporterOption, with_endpoint, with_insecure, validate_endpoint, exporter_options,
}
use image_forge.Telemetry.Setup.{Globals, Sdk}
use image_forge.Telemetry.Logging.{Context, LogRecord, Slog, log_handler}
use image_forge.Telemetry.Logging.Stamps.{Derivation, attrs, group, derive, Carries, handle-Carries}
use image_forge.Telemetry.Carrier.{Carrier, get, Propagator, set_all, inject, extract}
use image_forge.Telemetry.Carrier.Travel.{carried, extract-inject}

-- Ratios in percent, and a resource that is its attributes.
abbrev percent : Sdk ℕ (List (Text × Text))
percent = record {
  le_zero = λ r. r == 0;
  gt_one = λ r. ltb 100 r;
  one = 100;
  merge = λ attrs. ok attrs;
}

-- URLs that are their own text, and a host before a colon.
abbrev plain_net : Net Text
plain_net = record {
  parse = λ s. ok s;
  host = λ u. u;
  path = λ u. [];
  set_path = λ p u. u ++ p;
  print = λ u. u;
  split_host_port =
      λ s. elim (cut b':' s) [ none ↦ err (new (codes "missing port")) | some p ↦ ok p ];
}

abbrev keep_options : List ExporterOption → Result (List ExporterOption)
keep_options opts = ok opts

abbrev traced_api : Tracing ℕ
traced_api = record {
  service_name = codes "imageforge-api";
  service_version = codes "dev";
  environment = [];
  endpoint = codes " collector:4318 ";
  insecure = true;
  sample_ratio = 0;
  disabled = false;
}

abbrev untraced : Globals ℕ (List (Text × Text)) (List ExporterOption)
untraced = record { tracer_provider = none; propagating = false; errors_logged = false }

-- A URL with another scheme passes as an endpoint and is given to the exporter as a host and port.
other_scheme :
    (validate_endpoint plain_net (codes "grpc://c:4317") ≡ none)
    × (exporter_options plain_net (codes "grpc://c:4317") true
        ≡ with_endpoint (codes "grpc://c:4317") ∷ with_insecure ∷ [])
unfolding validate_endpoint exporter_options contains has_prefix text_eq
other_scheme = (refl, refl)

-- A handler that keeps the records, with the names of the groups of its logger.
abbrev keeping : Slog (List Text) (List (LogRecord Text)) Text
keeping = record {
  enabled = λ h ctx level. true;
  handle = λ h ctx r w. (r ∷ w, none);
  with_attrs = λ attrs h. h;
  with_group = λ name h. name ∷ h;
}

abbrev working : Context
working = record {
  span_context = record {
    has_trace_id = true;
    is_valid = true;
    trace_id = codes "4bf92f35";
    span_id = codes "00f067aa";
  };
  job = some (codes "a1");
}

abbrev failure_record : LogRecord Text
failure_record = record {
  level = pos 8;
  text = codes "job failed";
  attrs = (codes "job_id", codes "a1") ∷ [];
}

abbrev derivations : List (Derivation Text)
derivations = attrs ((codes "service", codes "worker") ∷ []) ∷ group (codes "job") ∷ []

handle-Carries_example :
    (s : LogRecord Text) × Carries (λ v. v) working failure_record s
    × ((log_handler (λ v. v) keeping).handle
          (derive (log_handler (λ v. v) keeping) derivations (record { inner = [] }))
          working
          failure_record
          []
        ≡ keeping.handle (derive keeping derivations []) working s [])
handle-Carries_example = handle-Carries (λ v. v) keeping derivations [] working failure_record []

-- A propagator of one value, beside an empty one that the queue does not keep.
abbrev traceparent : Propagator Text
traceparent = record {
  written = λ c. (codes "tracestate", []) ∷ (codes "traceparent", c) ∷ [];
  extracted = λ base read. read (codes "traceparent");
}

traceparent_read : get (carried traceparent (codes "00-4b")) (codes "traceparent") ≡ codes "00-4b"
unfolding get set_all lookup insert text_eq
traceparent_read = refl

extract-inject_example :
    (c : Carrier) × (inject traceparent (codes "00-4b") ≡ some c)
    × (extract traceparent [] (some (decode_meta (encode_meta c))) ≡ codes "00-4b")
extract-inject_example =
    extract-inject traceparent (λ c. c) (codes "00-4b") [] (codes "traceparent")
      (λ e. ground (arith, e, traceparent_read)) traceparent_read
