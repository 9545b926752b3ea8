-- ===== src/Telemetry/Logging.antt =====
-- internal/telemetry/logging.go: the handler that stamps a log record with the identifiers of its
-- context. slog's handlers and the values of attributes are parameters.
pub mod Stamps
use image_forge.Prelude.{
  Bool, true, false, not, ◌&&◌, Option, none, some, List, [], ◌∷◌, ◌++◌, Text, codes, text_eq,
  if◌then◌else◌, ℤ,
}
use image_forge.Errors.{Error}

abbrev pub trace_id_key : Text
trace_id_key = codes "trace_id"

abbrev pub span_id_key : Text
span_id_key = codes "span_id"

abbrev pub job_id_key : Text
job_id_key = codes "job_id"

-- What is read of a trace.SpanContext.
pub record SpanContext : Type 0 where
  pub has_trace_id : Bool
  pub is_valid : Bool
  pub trace_id : Text
  pub span_id : Text

-- What is read of a context: its span, and the value under this package's key.
pub record Context : Type 0 where
  pub span_context : SpanContext
  pub job : Option Text

-- `WithJobID`
unfoldable pub with_job_id : Text → Context → Context
with_job_id id ctx = if text_eq id [] then ctx else record ctx { job = some id }

-- `JobID`
unfoldable pub job_id : Context → Text
job_id ctx = elim ctx.job [ none ↦ [] | some id ↦ id ]

-- `TraceID`
unfoldable pub trace_id_of : Context → Text
trace_id_of ctx = if ctx.span_context.has_trace_id then ctx.span_context.trace_id else []

-- slog.Record, its attributes each a key with a value.
pub record LogRecord (V : Type 0) : Type 0 where
  pub level : ℤ
  pub text : Text
  pub attrs : List (Text × V)

-- `hasAttr`
unfoldable pub has_attr : {V : Type 0} → List (Text × V) → Text → Bool
has_attr [] key = false
has_attr ((k, v) ∷ attrs) key = if text_eq k key then true else has_attr attrs key

-- slog.Handler, over the world `W` of what has been logged.
pub record Slog (H W V : Type 0) : Type 0 where
  pub enabled : H → Context → ℤ → Bool
  pub handle : H → Context → LogRecord V → W → W × Option Error
  pub with_attrs : List (Text × V) → H → H
  pub with_group : Text → H → H

-- `logHandler`
pub record LogHandler (H : Type 0) : Type 0 where
  pub inner : H

-- `NewLogHandler`
unfoldable pub new_log_handler : {H : Type 0} → Option H → Option (LogHandler H)
new_log_handler none = none
new_log_handler (some h) = some (record { inner = h })

-- `slog.String` makes the value of a string.
module _ {V : Type 0} (string : Text → V) where
  span_attrs : SpanContext → List (Text × V)
  span_attrs sc =
      if sc.is_valid
      then (trace_id_key, string sc.trace_id) ∷ (span_id_key, string sc.span_id) ∷ []
      else []

  job_attrs : Text → List (Text × V) → List (Text × V)
  unfolding has_attr text_eq
  job_attrs id attrs =
      if not (text_eq id []) && not (has_attr attrs job_id_key)
      then (job_id_key, string id) ∷ []
      else []

  -- The record that `Handle` hands on.
  unfoldable pub stamped : Context → LogRecord V → LogRecord V
  unfolding span_attrs job_attrs job_id
  stamped ctx r =
      let attrs = r.attrs ++ span_attrs ctx.span_context in
      record r { attrs = attrs ++ job_attrs (job_id ctx) attrs }

  -- The methods of `logHandler`.
  unfoldable pub log_handler : {H W : Type 0} → Slog H W V → Slog (LogHandler H) W V
  unfolding stamped
  log_handler slog = record {
    enabled = λ h ctx level. slog.enabled h.inner ctx level;
    handle = λ h ctx r w. slog.handle h.inner ctx (stamped ctx r) w;
    with_attrs = λ attrs h. record { inner = slog.with_attrs attrs h.inner };
    with_group = λ name h. record { inner = slog.with_group name h.inner };
  }
