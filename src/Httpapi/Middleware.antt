-- ===== src/Httpapi/Middleware.antt =====
-- internal/adapters/httpapi/middleware.go: what is around every handler. A handler acts on an
-- exchange and may panic; a deferred function runs in either case. The middleware of chi, and CORS,
-- are left out: the identifier that chi gives is the request's.
pub mod Observed
use image_forge.Prelude.{
  ℕ, Bool, not, ◌&&◌, ◌||◌, Option, none, some, List, [], ◌∷◌, ◌++◌, Text, codes, text_eq,
  has_prefix, cut, leb, if◌then◌else◌, length,
}
use image_forge.Telemetry.Logging.{trace_id_of}
use image_forge.Errors.{Result}
use image_forge.Httpapi.Answers.{type_internal}
use image_forge.Httpapi.Writer.{
  Writer, set_header, status_of, Incoming, ProblemDetail, write_problem_detail,
}

-- What a handler panics with: http.ErrAbortHandler, or anything else.
pub data Panic : Type 0 where
  abort_handler : Panic
  other : Text → Panic

-- A log record: of a completed request, its level, identifier, method, path, status and size; of a
-- panic, the identifier and the value.
pub data Line : Type 0 where
  completed : ℕ → Text → Text → Text → ℕ → ℕ → Line
  panicked : Text → Panic → Line

pub record Exchange (W : Type 0) : Type 0 where
  pub writer : Writer
  pub span_name : Option Text
  -- the latest first
  pub log : List Line
  pub world : W

abbrev pub Handler : Type 0 → Type 0
Handler W = Exchange W → Exchange W × Option Panic

abbrev pub trace_id_header : Text
trace_id_header = codes "X-Trace-Id"

abbrev pub request_id_header : Text
request_id_header = codes "X-Request-Id"

-- `isProbe`
unfoldable pub is_probe : Text → Bool
unfolding text_eq
is_probe path = text_eq path (codes "/healthz") || text_eq path (codes "/readyz")

-- `strings.ReplaceAll` of "/*/" by "/"
unfoldable pub without_wildcards : Text → Text
unfolding has_prefix
without_wildcards [] = []
without_wildcards (a ∷ []) = a ∷ []
without_wildcards (a ∷ b ∷ []) = a ∷ b ∷ []
without_wildcards (a ∷ b ∷ c ∷ s) =
    let cut = without_wildcards s in
    let kept = without_wildcards (b ∷ c ∷ s) in
    if has_prefix (codes "/*/") (a ∷ b ∷ c ∷ s) then b'/' ∷ cut else a ∷ kept

-- `routePattern`
unfoldable pub route_pattern : Incoming → Text
unfolding without_wildcards
route_pattern r = elim r.pattern [ none ↦ [] | some pattern ↦ without_wildcards pattern ]

-- The levels of slog.
unfoldable pub level_for : ℕ → ℕ
level_for status = if leb 500 status then 8 else if leb 400 status then 4 else 0

module _ {W : Type 0} (marshal : ProblemDetail → Result Text) (r : Incoming) where
  -- `withTracing`: the span is named by the method, and probes have none.
  unfoldable pub with_tracing : Handler W → Handler W
  unfolding is_probe
  with_tracing next e =
      if is_probe r.path then next e else next (record e { span_name = some r.method })

  header_unless : Text → Text → Exchange W → Exchange W
  unfolding text_eq set_header
  header_unless key value e =
      if text_eq value [] then e else record e { writer = set_header key value e.writer }

  span_named : Exchange W → Exchange W
  unfolding route_pattern text_eq
  span_named e =
      if r.recording && not (text_eq (route_pattern r) [])
      then record e { span_name = some (r.method ++ codes " " ++ route_pattern r) }
      else e

  -- `traceRoute`
  unfoldable pub trace_route : Handler W → Handler W
  unfolding header_unless span_named
  trace_route next e =
      let (e', p) = next (header_unless trace_id_header (trace_id_of r.context) e) in
      (span_named e', p)

  -- `echoRequestID`
  unfoldable pub echo_request_id : Handler W → Handler W
  unfolding header_unless
  echo_request_id next e = next (header_unless request_id_header r.request_id e)

  logged : Exchange W → Exchange W
  unfolding level_for status_of
  logged e = record e {
    log =
        completed (level_for (status_of e.writer)) r.request_id r.method r.path (status_of e.writer)
          (length e.writer.body)
        ∷ e.log;
  }

  -- `requestLogger`
  unfoldable pub request_logger : Handler W → Handler W
  unfolding logged
  request_logger next e = let (e', p) = next e in (logged e', p)

  recovered : Exchange W × Option Panic → Exchange W × Option Panic
  unfolding write_problem_detail
  recovered (e, none) = (e, none)
  recovered (e, some abort_handler) = (e, some abort_handler)
  recovered (e, some (other value)) = (
    record e {
      log = panicked r.request_id (other value) ∷ e.log;
      writer =
          write_problem_detail marshal r 500 type_internal (codes "Internal Server Error")
            (codes "The server encountered an unexpected condition.") e.writer;
    },
    none,
  )

  -- `recoverer`
  unfoldable pub recoverer : Handler W → Handler W
  unfolding recovered
  recoverer next e = recovered (next e)

  -- The order of `routes`, within `Routes`.
  unfoldable pub stacked : Handler W → Handler W
  unfolding with_tracing echo_request_id trace_route request_logger recoverer
  stacked next = with_tracing (echo_request_id (trace_route (request_logger (recoverer next))))
