-- ===== src/Httpapi/Serve/Guarded.antt =====
-- Which requests can change the stored jobs.
use image_forge.Domain.Job.{Job}
use image_forge.Usecase.CreateJob.{execute}
use image_forge.Prelude.{
  ℕ, ◌≡◌, refl, ap, ◌∙◌, ◌⊎◌, inl, inr, true, Option, none, some, [], arith, Text, text_eq,
  Bool-cases, Option-cases,
}
use image_forge.Errors.{Error, Result, ok, err}
use image_forge.Domain.Spec.{TransformationSpec, validate}
use image_forge.Domain.Validation.{IsUsable, validate-IsUsable}
use image_forge.Ports.{Bytes, Storage, Queue}
use image_forge.Httpapi.Answers.{Problem, handle_get_job, handle_readyz}
use image_forge.Usecase.CreateJob.Promise.{execute-unusable}
use image_forge.Httpapi.Serve.{
  Route, healthz, readyz, not_found, method_not_allowed, token, uploads, get_job, Request, Response,
  Api, Site, authenticated, decided, guarded, uploading, answering, routed, serve,
}
use image_forge.Httpapi.RateLimit.{
  Limiter, allow, Decision, unauthorized, proceeds, limited, rate_limit,
}
use image_forge.Httpapi.Upload.{Form, read_upload, replied, handle_upload}

-- An upload by a client whose token is valid, within its budget, of a file that is an image and a
-- specification that follows the rules.
pub record Admitted {W L : Type 0} (api : Api W L) (r : Request) (s : Site W L) : Type 0 where
  pub form : Form
  pub is_upload : r.route ≡ uploads form
  pub client : Text
  pub has_token : authenticated api r.authorization r.now ≡ ok client
  pub in_budget : (allow api.rate client r.now s.limiter).1 ≡ true
  pub spec : TransformationSpec
  pub content : Bytes
  pub parsed : read_upload api.detect api.decode api.max_upload_bytes form ≡ inr (spec, content)
  pub usable : IsUsable spec

module _ {W L : Type 0} (api : Api W L) where
  allowed_lem :
      (id : Text) (now : ℕ) (l : Limiter L)
      → (rate_limit api.rate (some id) now l).1 ≡ proceeds
      → (allow api.rate id now l).1 ≡ true
  unfolding rate_limit
  allowed_lem id now l h = elim (Bool-cases (allow api.rate id now l).1) [
    | inl t ↦ t
    | inr f ↦ absurd (ground arith)
  ]

  decided_cases :
      (next : W → W × Response) (s : Site W L) (d : Limiter L × Decision)
      → ((decided api next s d).0.world ≡ s.world)
        ⊎ ((d.1 ≡ proceeds) × ((decided api next s d).0.world ≡ (next s.world).0))
  unfolding decided
  decided_cases next s (l, unauthorized) = inl refl
  decided_cases next s (l, limited seconds) = inl refl
  decided_cases next s (l, proceeds) = inr (refl, refl)

  guarded_cases :
      (next : W → W × Response) (auth : Result Text) (now : ℕ) (s : Site W L)
      → ((guarded api next auth now s).0.world ≡ s.world)
        ⊎ ((client : Text) × (auth ≡ ok client)
            × ((allow api.rate client now s.limiter).1 ≡ true)
            × ((guarded api next auth now s).0.world ≡ (next s.world).0))
  unfolding guarded
  guarded_cases next (err e) now s = inl refl
  guarded_cases next (ok client) now s =
      elim (decided_cases next s (rate_limit api.rate (some client) now s.limiter)) [
        | inl h ↦ inl h
        | inr (p, h) ↦ inr (client, refl, allowed_lem client now s.limiter p, h)
      ]

  get_job-keeps :
      (stored : W → Text → Option Job)
      → ((id j : Text) (w : W) → stored (api.jobs.get id w).0 j ≡ stored w j)
      → (id j : Text) (w : W) → stored (answering api id w).0 j ≡ stored w j
  unfolding answering handle_get_job
  get_job-keeps stored keeps id j w = elim (Bool-cases (text_eq id [])) [
    | inl t ↦ rw t
    | inr f ↦ rw f (keeps id j w)
  ]

  -- A request for a job, through the guards.
  job-keeps :
      (stored : W → Text → Option Job)
      → ((id j : Text) (w : W) → stored (api.jobs.get id w).0 j ≡ stored w j)
      → (id j : Text) (auth : Result Text) (now : ℕ) (s : Site W L)
      → stored (guarded api (answering api id) auth now s).0.world j ≡ stored s.world j
  job-keeps stored keeps id j auth now s = elim (guarded_cases (answering api id) auth now s) [
    | inl h ↦ ap (λ w. stored w j) h
    | inr (client, a, b, h) ↦ ap (λ w. stored w j) h ∙ get_job-keeps stored keeps id j s.world
  ]

  readyz-keeps :
      (stored : W → Text → Option Job) (check : Option (W → W × Option Error))
      → ((f : W → W × Option Error) (j : Text) (w : W)
          → check ≡ some f
          → stored (f w).0 j ≡ stored w j)
      → (j : Text) (w : W) → stored (handle_readyz check w).0 j ≡ stored w j
  unfolding handle_readyz
  readyz-keeps stored none keeps j w = refl
  readyz-keeps stored (some f) keeps j w = keeps f j w refl

module _ {W L : Type 0} (api : Api W L) (storage : Storage W) (queue : Queue W)
    (new_id : W → W × Text) (now : W → W × ℕ) where
  -- The service with the use case of internal/usecase.
  abbrev pub service : Api W L
  service = record api { create_job = execute storage api.jobs queue new_id now }

  unusable-keeps :
      (spec : TransformationSpec) (content : Bytes) (w : W)
      → (IsUsable spec)
        ⊎ ((execute storage api.jobs queue new_id now
              (record { source = some content; spec = spec })
              w).0
            ≡ w)
  unusable-keeps spec content w = elim (Option-cases (validate spec)) [
    | inl v ↦ inl ((validate-IsUsable spec).0 v)
    | inr (e, v) ↦
        inr
          (execute-unusable storage api.jobs queue new_id now content spec w
            (λ u. ground (arith, (validate-IsUsable spec).1 u))).0
  ]

  replied-world :
      (r : W × Option Job × Option Error)
      → (replied service.create_job api.ctx_err api.public_base_url r).0 ≡ r.0
  unfolding replied
  replied-world (w, job, some e) = refl
  replied-world (w, some job, none) = refl
  replied-world (w, none, none) = refl

  upload_cases :
      (o : Problem ⊎ (TransformationSpec × Bytes)) (w : W)
      → ((spec : TransformationSpec) × (content : Bytes) × (o ≡ inr (spec, content))
          × IsUsable spec)
        ⊎ ((handle_upload service.create_job api.ctx_err api.public_base_url o w).0 ≡ w)
  unfolding handle_upload
  upload_cases (inl p) w = inr refl
  upload_cases (inr (spec, content)) w = elim (unusable-keeps spec content w) [
    | inl u ↦ inl (spec, content, refl, u)
    | inr e ↦
        inr
          (replied-world (service.create_job (record { source = some content; spec = spec }) w) ∙ e)
  ]

  module _ (stored : W → Text → Option Job)
      (get_keeps : (id j : Text) (w : W) → stored (api.jobs.get id w).0 j ≡ stored w j)
      (ready_keeps : (f : W → W × Option Error) (j : Text) (w : W)
        → api.ready_check ≡ some f
        → stored (f w).0 j ≡ stored w j) where
    uploads-stores :
        (r : Request) (form : Form) (s : Site W L)
        → r.route ≡ uploads form
        → Admitted service r s
          ⊎ ((guarded service
                (uploading service form)
                (authenticated service r.authorization r.now)
                r.now
                s).0.world
              ≡ s.world)
    unfolding uploading
    uploads-stores r form s e =
        let read = read_upload api.detect api.decode api.max_upload_bytes form in
        let auth = authenticated service r.authorization r.now in
        elim (guarded_cases service (uploading service form) auth r.now s) [
          | inl h ↦ inr h
          | inr (client, a, b, h) ↦ elim (upload_cases read s.world) [
            | inl (spec, content, q, u) ↦ inl (record {
              form = form;
              is_upload = e;
              client = client;
              has_token = a;
              in_budget = b;
              spec = spec;
              content = content;
              parsed = q;
              usable = u;
            })
            | inr k ↦ inr (h ∙ k)
          ]
        ]

    routed-stores :
        (r : Request) (route : Route) (s : Site W L)
        → r.route ≡ route
        → Admitted service r s
          ⊎ ((j : Text)
              → stored (routed service route r.authorization r.now s).0.world j ≡ stored s.world j)
    unfolding routed
    routed-stores r healthz s e = inr (λ j. refl)
    routed-stores r readyz s e =
        inr (λ j. readyz-keeps api stored api.ready_check ready_keeps j s.world)
    routed-stores r (token request) s e = inr (λ j. refl)
    routed-stores r (uploads form) s e = elim (uploads-stores r form s e) [
      | inl a ↦ inl a
      | inr h ↦ inr (λ j. ap (λ w. stored w j) h)
    ]
    routed-stores r (get_job id) s e = inr (λ j.
        job-keeps service stored get_keeps id j (authenticated service r.authorization r.now) r.now
          s)
    routed-stores r not_found s e = inr (λ j. refl)
    routed-stores r method_not_allowed s e = inr (λ j. refl)

    -- Where reading a job and the readiness check leave the stored jobs alone, a request changes a
    -- stored job only if it is an upload with a valid bearer token whose client is within its budget,
    -- and its parts are an accepted image and a specification that follows the documented rules.
    pub serve-Admitted :
        (r : Request) (s : Site W L)
        → Admitted service r s
          ⊎ ((j : Text) → stored (serve service r s).0.world j ≡ stored s.world j)
    unfolding serve
    serve-Admitted r s = routed-stores r r.route s refl
