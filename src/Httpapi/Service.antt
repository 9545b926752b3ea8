-- ===== src/Httpapi/Service.antt =====
-- internal/adapters/httpapi: one request through the whole of `Routes`: the middleware around the
-- routes, and the answer of a route as it is written to the response.
pub mod Served
use image_forge.Prelude.{none, Text, codes, decimal}
use image_forge.Errors.{Result, ok, err}
use image_forge.Httpapi.Answers.{Problem, JobResponse, shown, healthy, unhealthy}
use image_forge.Httpapi.Answers
use image_forge.Httpapi.Upload.{accepted, TokenResponse}
use image_forge.Httpapi.Upload
use image_forge.Httpapi.Serve.{
  Route, uploads, get_job, Request, Response, problem, retry, health, issued, uploaded, answered,
  Api, Site, authenticated, serve,
}
use image_forge.Httpapi.Writer.{
  Writer, set_header, Incoming, ProblemDetail, write_problem_with, plain_problem,
  write_problem_detail, write_json,
}
use image_forge.Httpapi.Middleware.{Handler, stacked}

-- `json.Marshal` of what is written.
pub record Json : Type 0 where
  pub of_problem : ProblemDetail → Result Text
  pub of_status : Text → Result Text
  pub of_token : TokenResponse → Result Text
  pub of_job : JobResponse → Result Text

module _ (json : Json) (r : Incoming) where
  refuse : Problem → Writer → Writer
  unfolding write_problem_detail
  refuse p w = write_problem_detail json.of_problem r p.status p.kind p.title p.detail w

  -- What the handlers and the middleware write for an answer.
  unfoldable pub respond : Response → Writer → Writer
  unfolding refuse write_problem_with write_json set_header
  respond (problem p) w = refuse p w
  respond (retry seconds p) w =
      write_problem_with json.of_problem r
        (record (plain_problem p.status p.kind p.title p.detail) { retry_after = seconds })
        (set_header (codes "Retry-After") (decimal seconds) w)
  respond (health (healthy status)) w = write_json json.of_problem r 200 (json.of_status status) w
  respond (health (unhealthy p)) w = refuse p w
  respond (issued minted) w =
      write_json json.of_problem r 200 (json.of_token minted)
        (set_header (codes "Cache-Control") (codes "no-store") w)
  respond (uploaded (Upload.refused p)) w = refuse p w
  respond (uploaded (accepted location job)) w =
      write_json json.of_problem r 202 (json.of_job job) (set_header (codes "Location") location w)
  respond (answered (Answers.refused p)) w = refuse p w
  respond (answered (shown job)) w = write_json json.of_problem r 200 (json.of_job job) w

  unless_known : Result Text → Writer → Writer
  unfolding set_header
  unless_known (ok client) w = w
  unless_known (err e) w =
      set_header (codes "WWW-Authenticate") (codes "Bearer realm=\"imageforge\"") w

  -- The header that `requireAuth` sets on its routes before it refuses.
  unfoldable pub challenged : Route → Result Text → Writer → Writer
  unfolding unless_known
  challenged (uploads form) known w = unless_known known w
  challenged (get_job id) known w = unless_known known w
  challenged _ known w = w

  module _ {W L : Type 0} (api : Api W L) where
    unfoldable pub handler : Request → Handler (Site W L)
    unfolding respond challenged serve authenticated
    handler q e =
        let (site, response) = serve api q e.world in
        (
          record e {
            writer =
                respond response
                  (challenged q.route (authenticated api q.authorization q.now) e.writer);
            world = site;
          },
          none,
        )

    -- `Routes`
    unfoldable pub serve_http : Request → Handler (Site W L)
    unfolding stacked handler
    serve_http q = stacked json.of_problem r (handler q)
