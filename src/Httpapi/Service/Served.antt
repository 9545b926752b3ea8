-- ===== src/Httpapi/Service/Served.antt =====
-- What a client and the request log see of a request.
use image_forge.Httpapi.Middleware.{Line, completed, Exchange, level_for, stacked}
use image_forge.Httpapi.Middleware.Observed.{entered, entered-keeps, stacked-IsObserved}
use image_forge.Prelude.{
  ℕ, ◌≡◌, refl, ap, ◌∙◌, none, List, ◌∷◌, arith, Text, codes, decimal, length,
}
use image_forge.Errors.{Result, ok, err}
use image_forge.Httpapi.Answers.{Problem, JobResponse, shown, healthy, unhealthy}
use image_forge.Httpapi.Answers
use image_forge.Httpapi.Upload.{accepted, TokenResponse}
use image_forge.Httpapi.Upload
use image_forge.Httpapi.Serve.{
  Route, healthz, readyz, not_found, method_not_allowed, token, uploads, get_job, Request, Response,
  problem, retry, health, issued, uploaded, answered, Api, Site, authenticated, serve,
}
use image_forge.Httpapi.Writer.{
  Writer, set_header, write_header, write, status_of, Incoming, ProblemDetail, filled,
  write_problem_with, plain_problem, write_problem_detail, write_json,
}
use image_forge.Httpapi.Service.{
  Json, refuse, respond, unless_known, challenged, handler, serve_http,
}

-- The status of each kind of answer.
abbrev pub status_code : Response → ℕ
status_code (problem p) = p.status
status_code (retry seconds p) = p.status
status_code (health (healthy status)) = 200
status_code (health (unhealthy p)) = p.status
status_code (issued minted) = 200
status_code (uploaded (Upload.refused p)) = p.status
status_code (uploaded (accepted location job)) = 202
status_code (answered (Answers.refused p)) = p.status
status_code (answered (shown job)) = 200

-- The encoder takes whatever the API writes: strings, numbers and records of them.
pub record Encodes (json : Json) : Type 0 where
  pub problem_encodes : (p : ProblemDetail) → (t : Text) × (json.of_problem p ≡ ok t)
  pub status_encodes : (s : Text) → (t : Text) × (json.of_status s ≡ ok t)
  pub token_encodes : (k : TokenResponse) → (t : Text) × (json.of_token k ≡ ok t)
  pub job_encodes : (j : JobResponse) → (t : Text) × (json.of_job j ≡ ok t)

module _ (json : Json) (total : Encodes json) (r : Incoming) where
  problem-status :
      (p : ProblemDetail) (w : Writer)
      → w.sent ≡ none
      → status_of (write_problem_with json.of_problem r p w) ≡ p.status
  unfolding write_problem_with status_of write write_header set_header
  problem-status p w n = let (t, e) = total.problem_encodes (filled r p) in ground (arith, e, n)

  json-status :
      (status : ℕ) (t : Text) (x : Result Text) (w : Writer)
      → x ≡ ok t
      → w.sent ≡ none
      → status_of (write_json json.of_problem r status x w) ≡ status
  unfolding write_json status_of write write_header set_header
  json-status status t x w e n = ground (arith, e, n)

  refuse-status :
      (p : Problem) (w : Writer) → w.sent ≡ none → status_of (refuse json r p w) ≡ p.status
  unfolding refuse write_problem_detail
  refuse-status p w n = problem-status (plain_problem p.status p.kind p.title p.detail) w n

  respond-status :
      (x : Response) (w : Writer) → w.sent ≡ none → status_of (respond json r x w) ≡ status_code x
  unfolding respond set_header
  respond-status (problem p) w n = refuse-status p w n
  respond-status (retry seconds p) w n =
      problem-status
        (record (plain_problem p.status p.kind p.title p.detail) { retry_after = seconds })
        (set_header (codes "Retry-After") (decimal seconds) w) n
  respond-status (health (healthy s)) w n =
      json-status 200 (total.status_encodes s).0 _ w (total.status_encodes s).1 n
  respond-status (health (unhealthy p)) w n = refuse-status p w n
  respond-status (issued minted) w n =
      json-status 200 (total.token_encodes minted).0 _
        (set_header (codes "Cache-Control") (codes "no-store") w) (total.token_encodes minted).1 n
  respond-status (uploaded (Upload.refused p)) w n = refuse-status p w n
  respond-status (uploaded (accepted location job)) w n =
      json-status 202 (total.job_encodes job).0 _ (set_header (codes "Location") location w)
        (total.job_encodes job).1 n
  respond-status (answered (Answers.refused p)) w n = refuse-status p w n
  respond-status (answered (shown job)) w n =
      json-status 200 (total.job_encodes job).0 _ w (total.job_encodes job).1 n

  unless_known-sent : (k : Result Text) (w : Writer) → (unless_known json r k w).sent ≡ w.sent
  unfolding unless_known set_header
  unless_known-sent (ok client) w = refl
  unless_known-sent (err e) w = refl

  challenged-sent :
      (x : Route) (k : Result Text) (w : Writer) → (challenged json r x k w).sent ≡ w.sent
  unfolding challenged
  challenged-sent (uploads form) k w = unless_known-sent k w
  challenged-sent (get_job id) k w = unless_known-sent k w
  challenged-sent healthz k w = refl
  challenged-sent readyz k w = refl
  challenged-sent not_found k w = refl
  challenged-sent method_not_allowed k w = refl
  challenged-sent (token x) k w = refl

  module _ {W L : Type 0} (api : Api W L) where
    -- With handlers that do not panic, which is how they are modelled, an answer always comes, with
    -- the status of what the routes answer, and one record of the request is logged, with that
    -- status and at its level.
    serve_http-status :
        (q : Request) (e : Exchange (Site W L))
        → e.writer.sent ≡ none
        → let (e', p) = serve_http json r api q e in
          let (site, response) = serve api q e.world in
          (p ≡ none)
          × (status_of e'.writer ≡ status_code response)
          × (e'.world ≡ site)
          × (e'.log
              ≡ completed
                  (level_for (status_code response))
                  r.request_id
                  r.method
                  r.path
                  (status_code response)
                  (length e'.writer.body)
                ∷ e.log)
    unfolding serve_http handler
    serve_http-status q e n =
        let x = entered json.of_problem r e in
        let k = entered-keeps json.of_problem r e in
        let o = stacked-IsObserved json.of_problem r (handler json r api q) e in
        let s =
          respond-status (serve api q x.world).1
            (challenged json r q.route (authenticated api q.authorization q.now) x.writer)
            (challenged-sent _ _ _ ∙ k.0 ∙ n) in
        let a = o.answered ∙ s ∙ ap (λ w. status_code (serve api q w).1) k.1 in
        let out = (stacked json.of_problem r (handler json r api q) e).0 in
        let line : ℕ → List Line → List Line = λ status log.
          completed (level_for status) r.request_id r.method r.path status (length out.writer.body)
          ∷ log in
        (
          o.unpanicked,
          a,
          o.same_world ∙ ap (λ w. (serve api q w).0) k.1,
          o.logged_once
              ∙ ap (λ status. line status x.log) a
              ∙ ap (λ log. line (status_code (serve api q e.world).1) log) k.2,
        )
