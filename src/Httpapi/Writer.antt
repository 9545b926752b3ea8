-- ===== src/Httpapi/Writer.antt =====
-- internal/adapters/httpapi/problem.go: how a problem and a value are written to the response. The
-- JSON encoder is a parameter. Go's ResponseWriter fixes the status and the headers by the first
-- call of WriteHeader, or by the first write, and ignores later calls.
use image_forge.Prelude.{
  ℕ, Bool, Option, none, some, List, [], ◌++◌, Text, codes, text_eq, insert, if◌then◌else◌,
}
use image_forge.Errors.{Result, ok, err}
use image_forge.Telemetry.Logging.{Context, trace_id_of}
use image_forge.Httpapi.Answers.{type_internal}

pub record Writer : Type 0 where
  pub headers : List (Text × Text)
  -- the status and the headers that were sent, if they were
  pub sent : Option (ℕ × List (Text × Text))
  pub body : Text

-- `Header().Set`
unfoldable pub set_header : Text → Text → Writer → Writer
unfolding insert
set_header key value w = record w { headers = insert key value w.headers }

unfoldable pub write_header : ℕ → Writer → Writer
write_header status w = elim w.sent [
  | none ↦ record w { sent = some (status, w.headers) }
  | some _ ↦ w
]

unfoldable pub write : Text → Writer → Writer
unfolding write_header
write bytes w = let w' = write_header 200 w in record w' { body = w'.body ++ bytes }

-- `Status()` of chi's wrapper: zero before anything is sent.
unfoldable pub status_of : Writer → ℕ
status_of w = elim w.sent [ none ↦ 0 | some (status, _) ↦ status ]

-- What is read of a request: its context with the span and the identifier of chi, the pattern of
-- the route that has matched by the end, and whether its span is recorded.
pub record Incoming : Type 0 where
  pub method : Text
  pub path : Text
  pub request_id : Text
  pub context : Context
  pub pattern : Option Text
  pub recording : Bool

-- `Problem`
pub record ProblemDetail : Type 0 where
  pub kind : Text
  pub title : Text
  pub status : ℕ
  pub detail : Text
  pub instance_path : Text
  pub request_id : Text
  pub trace_id : Text
  pub retry_after : ℕ

abbrev pub problem_content_type : Text
problem_content_type = codes "application/problem+json"

abbrev pub content_type : Text
content_type = codes "Content-Type"

-- The members that `writeProblemWith` fills in.
unfoldable pub filled : Incoming → ProblemDetail → ProblemDetail
unfolding text_eq
filled r p = record p {
  instance_path = r.path;
  request_id = if text_eq p.request_id [] then r.request_id else p.request_id;
  trace_id = if text_eq p.trace_id [] then trace_id_of r.context else p.trace_id;
}

-- `writeProblemWith`, by what `json.Marshal` makes of the problem
unfoldable pub write_problem_with :
    (ProblemDetail → Result Text) → Incoming → ProblemDetail → Writer → Writer
unfolding filled set_header write_header write
write_problem_with marshal r p w = elim (marshal (filled r p)) [
  | err e ↦
      write
        (codes "{\"type\":\""
          ++ type_internal
          ++ codes "\",\"title\":\"Internal Server Error\",\"status\":500}")
        (write_header 500 (set_header content_type problem_content_type w))
  | ok body ↦ write body (write_header p.status (set_header content_type problem_content_type w))
]

-- The problem that `writeProblem` makes.
abbrev pub plain_problem : ℕ → Text → Text → Text → ProblemDetail
plain_problem status kind title detail = record {
  kind = kind;
  title = title;
  status = status;
  detail = detail;
  instance_path = [];
  request_id = [];
  trace_id = [];
  retry_after = 0;
}

-- `writeProblem`
unfoldable pub write_problem_detail :
    (ProblemDetail → Result Text) → Incoming → ℕ → Text → Text → Text → Writer → Writer
unfolding write_problem_with
write_problem_detail marshal r status kind title detail w =
    write_problem_with marshal r (plain_problem status kind title detail) w

-- `writeJSON`, by what `json.Marshal` makes of the value
unfoldable pub write_json :
    (ProblemDetail → Result Text) → Incoming → ℕ → Result Text → Writer → Writer
unfolding write_problem_detail set_header write_header write
write_json marshal r status (err e) w =
    write_problem_detail marshal r 500 type_internal (codes "Internal Server Error")
      (codes "The response could not be encoded.") w
write_json marshal r status (ok body) w =
    write body
      (write_header status (set_header content_type (codes "application/json; charset=utf-8") w))
