-- ===== src/Httpapi/Middleware/Observed.antt =====
-- What the middleware makes of a handler, whatever the handler does.
use image_forge.Prelude.{
  ℕ, ◌≡◌, refl, ◌∙◌, inl, inr, not, ◌&&◌, Option, none, some, List, [], ◌∷◌, ◌++◌, arith, Text,
  text_eq, if◌then◌else◌, Bool-cases, Option-cases, length,
}
use image_forge.Telemetry.Logging.{trace_id_of}
use image_forge.Errors.{Result, Result-cases}
use image_forge.Httpapi.Writer.{
  Writer, set_header, write_header, write, status_of, Incoming, ProblemDetail, filled,
  write_problem_with, plain_problem, write_problem_detail,
}
use image_forge.Httpapi.Middleware.{
  Panic, abort_handler, other, Line, completed, panicked, Exchange, Handler, trace_id_header,
  request_id_header, is_probe, route_pattern, level_for, with_tracing, header_unless, span_named,
  trace_route, echo_request_id, logged, request_logger, recovered, recoverer, stacked,
}

-- The status that stands after another one is written: what was sent before stays.
abbrev pub status_or : ℕ → Writer → ℕ
status_or status w = elim w.sent [ none ↦ status | some (s, _) ↦ s ]

write_problem_with-status :
    (marshal : ProblemDetail → Result Text) (r : Incoming) (p : ProblemDetail) (w : Writer)
    → p.status ≡ 500
    → status_of (write_problem_with marshal r p w) ≡ status_or 500 w
unfolding write_problem_with status_of write write_header set_header
write_problem_with-status marshal r p w h = elim (Result-cases (marshal (filled r p))) [
  | inl (b, e) ↦ elim (Option-cases w.sent) [
    | inl n ↦ ground (arith, e, n, h)
    | inr (x, n) ↦ ground (arith, e, n, h)
  ]
  | inr (x, e) ↦ elim (Option-cases w.sent) [
    | inl n ↦ ground (arith, e, n, h)
    | inr (x, n) ↦ ground (arith, e, n, h)
  ]
]

write_problem_detail-status :
    (marshal : ProblemDetail → Result Text) (r : Incoming) (kind title detail : Text) (w : Writer)
    → status_of (write_problem_detail marshal r 500 kind title detail w) ≡ status_or 500 w
unfolding write_problem_detail
write_problem_detail-status marshal r kind title detail w =
    write_problem_with-status marshal r (plain_problem 500 kind title detail) w refl

abbrev pub panic_lines : Text → Option Panic → List Line
panic_lines id (some (other value)) = panicked id (other value) ∷ []
panic_lines id _ = []

abbrev pub aborting : Option Panic → Option Panic
aborting (some abort_handler) = some abort_handler
aborting _ = none

abbrev pub status_after : Option Panic → Writer → ℕ
status_after (some (other value)) w = status_or 500 w
status_after _ w = status_of w

module _ {W : Type 0} (marshal : ProblemDetail → Result Text) (r : Incoming) where
  -- The exchange as it reaches the handler: with the identifiers that there are among the headers,
  -- and a span unless it is a probe.
  pub entered : Exchange W → Exchange W
  entered e = header_unless marshal r trace_id_header (trace_id_of r.context) (
      header_unless marshal r request_id_header r.request_id
        (if is_probe r.path then e else record e { span_name = some r.method }))

  header_unless-keeps :
      (key value : Text) (e : Exchange W)
      → let x = header_unless marshal r key value e in
        (x.writer.sent ≡ e.writer.sent) × (x.world ≡ e.world) × (x.log ≡ e.log)
  unfolding header_unless set_header
  header_unless-keeps key value e = elim (Bool-cases (text_eq value [])) [
    | inl h ↦ rw h (refl, refl, refl)
    | inr h ↦ rw h (refl, refl, refl)
  ]

  spanned-keeps :
      (e : Exchange W)
      → let x : Exchange W =
          if is_probe r.path then e else record e { span_name = some r.method } in
        (x.writer.sent ≡ e.writer.sent) × (x.world ≡ e.world) × (x.log ≡ e.log)
  spanned-keeps e = elim (Bool-cases (is_probe r.path)) [
    | inl h ↦ rw h (refl, refl, refl)
    | inr h ↦ rw h (refl, refl, refl)
  ]

  -- Nothing is sent, logged or done before the handler.
  pub entered-keeps :
      (e : Exchange W)
      → let x = entered e in (x.writer.sent ≡ e.writer.sent) × (x.world ≡ e.world) × (x.log ≡ e.log)
  unfolding entered
  entered-keeps e =
      let a = spanned-keeps e in
      let b = header_unless-keeps request_id_header r.request_id _ in
      let c = header_unless-keeps trace_id_header (trace_id_of r.context) _ in
      (c.0 ∙ b.0 ∙ a.0, c.1 ∙ b.1 ∙ a.1, c.2 ∙ b.2 ∙ a.2)

  -- How what a handler leaves comes out.
  pub record IsObserved (inner outer : Exchange W × Option Panic) : Type 0 where
    pub answered : status_of outer.0.writer ≡ status_after inner.1 inner.0.writer
    pub unpanicked : outer.1 ≡ aborting inner.1
    pub same_world : outer.0.world ≡ inner.0.world
    pub logged_once :
        outer.0.log
        ≡ completed
            (level_for (status_of outer.0.writer))
            r.request_id
            r.method
            r.path
            (status_of outer.0.writer)
            (length outer.0.writer.body)
          ∷ (panic_lines r.request_id inner.1 ++ inner.0.log)

  finished : Exchange W × Option Panic → Exchange W × Option Panic
  unfolding recovered
  finished x = let (e, p) = recovered marshal r x in (span_named marshal r (logged marshal r e), p)

  span_named-keeps :
      (e : Exchange W)
      → let s = span_named marshal r e in
        (s.writer ≡ e.writer) × (s.log ≡ e.log) × (s.world ≡ e.world)
  unfolding span_named
  span_named-keeps e = elim (Bool-cases (r.recording && not (text_eq (route_pattern r) []))) [
    | inl h ↦ rw h (refl, refl, refl)
    | inr h ↦ rw h (refl, refl, refl)
  ]

  named-IsObserved :
      (x : Exchange W × Option Panic) (e : Exchange W) (p : Option Panic)
      → IsObserved x (e, p)
      → IsObserved x (span_named marshal r e, p)
  named-IsObserved x e p v =
      let k = span_named-keeps e in
      record {
        answered = rw k.0 v.answered;
        unpanicked = v.unpanicked;
        same_world = rw k.2 v.same_world;
        logged_once = rw (k.0, k.1) v.logged_once;
      }

  finished-IsObserved : (x : Exchange W × Option Panic) → IsObserved x (finished x)
  unfolding finished recovered logged
  finished-IsObserved (e, none) =
      named-IsObserved _ _ _
        (record { answered = refl; unpanicked = refl; same_world = refl; logged_once = refl })
  finished-IsObserved (e, some abort_handler) =
      named-IsObserved _ _ _
        (record { answered = refl; unpanicked = refl; same_world = refl; logged_once = refl })
  finished-IsObserved (e, some (other value)) = named-IsObserved _ _ _ (record {
    answered = write_problem_detail-status marshal r _ _ _ e.writer;
    unpanicked = refl;
    same_world = refl;
    logged_once = refl;
  })

  stacked-finished :
      (next : Handler W) (e : Exchange W) → stacked marshal r next e ≡ finished (next (entered e))
  unfolding stacked with_tracing echo_request_id trace_route request_logger recoverer finished
      entered
  stacked-finished next e = elim (Bool-cases (is_probe r.path)) [
    | inl h ↦ rw h refl
    | inr h ↦ rw h refl
  ]

  -- Whatever a handler does with an exchange, the middleware does not panic unless the handler
  -- aborts the response, leaves what the handler did to the world, and logs one record of the
  -- completed request, with the status and the size that the response then has. A panic of another
  -- kind is logged before, and is answered with 500 unless a status was sent already.
  pub stacked-IsObserved :
      (next : Handler W) (e : Exchange W) → IsObserved (next (entered e)) (stacked marshal r next e)
  stacked-IsObserved next e = rw (stacked-finished next e) (finished-IsObserved (next (entered e)))
