-- ===== src/Telemetry/Logging/Stamps.antt =====
-- What a log record carries when it reaches the handler that writes it.
use image_forge.Prelude.{
  ◌≡◌, refl, ap, ◌∙◌, inl, inr, true, false, List, [], ◌∷◌, ◌++◌, arith, Text, text_eq,
  if◌then◌else◌, Bool-cases,
}
use mathlib.Core.List.{append_assoc}
use image_forge.Telemetry.Logging.{
  trace_id_key, span_id_key, job_id_key, SpanContext, Context, job_id, LogRecord, has_attr, Slog,
  LogHandler, span_attrs, job_attrs, stamped, log_handler,
}

-- The values that stand under a key, in order.
pub valued : {V : Type 0} → Text → List (Text × V) → List V
valued key [] = []
valued key ((k, v) ∷ attrs) =
    let rest = valued key attrs in if text_eq k key then v ∷ rest else rest

-- The first list, or the second where the first is empty.
abbrev pub or_else : {A : Type 0} → List A → List A → List A
or_else [] ys = ys
or_else (x ∷ xs) ys = x ∷ xs

-- What `With` and `WithGroup` derive from a logger.
pub data Derivation (V : Type 0) : Type 0 where
  attrs : List (Text × V) → Derivation V
  group : Text → Derivation V

unfoldable pub derive : {H W V : Type 0} → Slog H W V → List (Derivation V) → H → H
derive slog [] h = h
derive slog (attrs xs ∷ ds) h = derive slog ds (slog.with_attrs xs h)
derive slog (group name ∷ ds) h = derive slog ds (slog.with_group name h)

append_none : {A : Type 0} (xs : List A) → xs ++ [] ≡ xs
append_none [] = refl
append_none (x ∷ xs) = ap (λ ys. x ∷ ys) (append_none xs)

valued-append :
    {V : Type 0} (key : Text) (xs ys : List (Text × V))
    → valued key (xs ++ ys) ≡ valued key xs ++ valued key ys
unfolding valued
valued-append key [] ys = refl
valued-append key ((k, v) ∷ xs) ys = ground (arith, valued-append key xs ys)

has_attr-absent :
    {V : Type 0} (xs : List (Text × V)) (key : Text) → has_attr xs key ≡ false → valued key xs ≡ []
unfolding valued has_attr
has_attr-absent [] key h = refl
has_attr-absent ((k, v) ∷ xs) key h = ground (arith, has_attr-absent xs key)

has_attr-present :
    {V : Type 0} (xs : List (Text × V)) (key : Text) (ys : List V)
    → has_attr xs key ≡ true
    → valued key xs ++ [] ≡ or_else (valued key xs) ys
unfolding valued has_attr
has_attr-present [] key ys h = absurd (ground arith)
has_attr-present ((k, v) ∷ xs) key ys h = elim (Bool-cases (text_eq k key)) [
  | inl e ↦ rw e (append_none (v ∷ valued key xs))
  | inr e ↦ rw e (has_attr-present xs key ys (rw e at h))
]

module _ {V : Type 0} (string : Text → V) where
  -- What the context adds: the two identifiers of its span, if that is valid, and its job, if it
  -- names one.
  abbrev pub of_span : Context → Text → List V
  of_span ctx id = if ctx.span_context.is_valid then string id ∷ [] else []

  abbrev pub of_job : Text → List V
  of_job id = if text_eq id [] then [] else string id ∷ []

  job_attrs-valued :
      (id : Text) (xs : List (Text × V))
      → valued job_id_key xs ++ valued job_id_key (job_attrs string id xs)
        ≡ or_else (valued job_id_key xs) (of_job id)
  unfolding job_attrs valued text_eq
  job_attrs-valued id xs = elim (Bool-cases (has_attr xs job_id_key)) [
    | inl h ↦ ground (arith, h, has_attr-present xs job_id_key (of_job id) h)
    | inr h ↦ ground (arith, h, has_attr-absent xs job_id_key h)
  ]

  -- A record with the text, the level and, in front, the attributes of another, and with the
  -- identifiers of the context: those of its span after any that the record named, and that of its
  -- job where the record named none.
  pub record Carries (ctx : Context) (r s : LogRecord V) : Type 0 where
    pub added : List (Text × V)
    pub keeps : s.attrs ≡ r.attrs ++ added
    pub same_level : s.level ≡ r.level
    pub same_text : s.text ≡ r.text
    pub trace :
        valued trace_id_key s.attrs
        ≡ valued trace_id_key r.attrs ++ of_span ctx ctx.span_context.trace_id
    pub span :
        valued span_id_key s.attrs
        ≡ valued span_id_key r.attrs ++ of_span ctx ctx.span_context.span_id
    pub job : valued job_id_key s.attrs ≡ or_else (valued job_id_key r.attrs) (of_job (job_id ctx))

  -- The values under a key of what is stamped, in its three parts.
  stamped-valued :
      (key : Text) (ctx : Context) (r : LogRecord V)
      → let spans = span_attrs string ctx.span_context in
        valued key (stamped string ctx r).attrs
        ≡ (valued key r.attrs ++ valued key spans)
          ++ valued key (job_attrs string (job_id ctx) (r.attrs ++ spans))
  unfolding stamped
  stamped-valued key ctx r =
      let spans = span_attrs string ctx.span_context in
      valued-append key (r.attrs ++ spans) (job_attrs string (job_id ctx) (r.attrs ++ spans))
      ∙ ap (λ vs. vs ++ valued key (job_attrs string (job_id ctx) (r.attrs ++ spans)))
          (valued-append key r.attrs spans)

  span_attrs-trace :
      (ctx : Context)
      → valued trace_id_key (span_attrs string ctx.span_context)
        ≡ of_span ctx ctx.span_context.trace_id
  unfolding span_attrs valued text_eq
  span_attrs-trace ctx = ground arith

  span_attrs-span :
      (ctx : Context)
      → valued span_id_key (span_attrs string ctx.span_context)
        ≡ of_span ctx ctx.span_context.span_id
  unfolding span_attrs valued text_eq
  span_attrs-span ctx = ground arith

  span_attrs-job : (sc : SpanContext) → valued job_id_key (span_attrs string sc) ≡ []
  unfolding span_attrs valued text_eq
  span_attrs-job sc = ground arith

  job_attrs-other :
      (id key : Text) (xs : List (Text × V))
      → text_eq job_id_key key ≡ false
      → valued key (job_attrs string id xs) ≡ []
  unfolding job_attrs valued
  job_attrs-other id key xs h = ground (arith, h)

  stamped-Carries : (ctx : Context) (r : LogRecord V) → Carries ctx r (stamped string ctx r)
  unfolding stamped text_eq
  stamped-Carries ctx r =
      let spans = span_attrs string ctx.span_context in
      let jobs = job_attrs string (job_id ctx) (r.attrs ++ spans) in
      record {
        added = spans ++ jobs;
        keeps = append_assoc r.attrs spans jobs;
        same_level = refl;
        same_text = refl;
        trace =
            stamped-valued trace_id_key ctx r
            ∙ rw
                (
                  job_attrs-other (job_id ctx) trace_id_key (r.attrs ++ spans) refl,
                  span_attrs-trace ctx,
                )
                (append_none _);
        span =
            stamped-valued span_id_key ctx r
            ∙ rw
                (
                  job_attrs-other (job_id ctx) span_id_key (r.attrs ++ spans) refl,
                  span_attrs-span ctx,
                )
                (append_none _);
        job =
            valued-append job_id_key (r.attrs ++ spans) jobs
            ∙ job_attrs-valued (job_id ctx) (r.attrs ++ spans)
            ∙ rw
                (
                  valued-append job_id_key r.attrs spans,
                  span_attrs-job ctx.span_context,
                  append_none (valued job_id_key r.attrs),
                )
                refl;
      }

  module _ {H W : Type 0} (slog : Slog H W V) where
    derive-inner :
        (ds : List (Derivation V)) (h : LogHandler H)
        → (derive (log_handler string slog) ds h).inner ≡ derive slog ds h.inner
    unfolding derive log_handler
    derive-inner [] h = refl
    derive-inner (attrs xs ∷ ds) h = derive-inner ds _
    derive-inner (group name ∷ ds) h = derive-inner ds _

    -- However a logger was derived from one with this handler, a record that it handles reaches
    -- the wrapped handler, derived in the same way, with its own attributes first, then, where the
    -- span of its context is valid, that span's trace and span identifiers under their keys, and the
    -- job of the context, if it names one, where the record did not name a job itself.
    pub handle-Carries :
        (ds : List (Derivation V)) (h : H) (ctx : Context) (r : LogRecord V) (w : W)
        → (s : LogRecord V) × Carries ctx r s
          × ((log_handler string slog).handle
                (derive (log_handler string slog) ds (record { inner = h }))
                ctx
                r
                w
              ≡ slog.handle (derive slog ds h) ctx s w)
    unfolding log_handler
    handle-Carries ds h ctx r w = (
      stamped string ctx r,
      stamped-Carries ctx r,
      ap (λ i. slog.handle i ctx (stamped string ctx r) w) (derive-inner ds (record { inner = h })),
    )
