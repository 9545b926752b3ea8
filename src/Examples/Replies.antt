-- ===== src/Examples/Replies.antt =====
-- A request without a token, through the whole of the API.
use image_forge.Prelude.{ℕ, ◌≡◌, refl, true, false, none, some, [], codes, text_eq}
use image_forge.Errors.{new, ok, err}
use image_forge.Httpapi.Auth.{TokenIssuer, bearer_token}
use image_forge.Httpapi.RateLimit.{client_ttl}
use image_forge.Httpapi.Serve.{get_job, Request, Api, Site, authenticated, serve}
use image_forge.Httpapi.Writer.{status_of, Incoming}
use image_forge.Httpapi.Middleware.{Exchange}
use image_forge.Telemetry.Logging.{trace_id_of}
use image_forge.Httpapi.Service.{Json, serve_http}
use image_forge.Httpapi.Service.Served.{status_code, Encodes}

-- Bodies are cut down to a title or an id.
abbrev titles : Json
titles = record {
  of_problem = λ p. ok p.title;
  of_status = λ s. ok s;
  of_token = λ k. ok k.access_token;
  of_job = λ j. ok j.id;
}

abbrev titles_encodes : Encodes titles
titles_encodes = record {
  problem_encodes = λ p. (p.title, refl);
  status_encodes = λ s. (s, refl);
  token_encodes = λ k. (k.access_token, refl);
  job_encodes = λ j. (j.id, refl);
}

abbrev keyed_issuer : TokenIssuer
keyed_issuer = record {
  key = codes "0123456789abcdef0123456789abcdef";
  ttl = 3600000000000;
  secret = [];
}

-- An API without jobs, whose tokens never verify.
abbrev closed_api : Api ℕ ℕ
closed_api = record {
  create_job = λ input w. (w, none, none);
  jobs = record {
    save = λ job w. (w, none);
    get = λ id w. (w, err (new (codes "no jobs")));
    update_status = λ id status key failure w. (w, none);
  };
  jwt = record {
    signed_string = λ method c key. err (new (codes "no tokens"));
    parse_with_claims = λ text key checks. err (new (codes "no tokens"));
  };
  issuer = keyed_issuer;
  rate = record { fresh = 2; reserve = λ now k. (k, true, 0); cancel = λ now k. k };
  limit = codes "5";
  public_base_url = [];
  max_upload_bytes = 1024;
  ready_check = none;
  ctx_err = λ w. none;
  detect = λ head. [];
  decode = λ raw. err (new (codes "no JSON"));
}

abbrev tokenless : Request
tokenless = record { route = get_job (codes "a1"); authorization = []; now = 7 }

abbrev polling : Incoming
polling = record {
  method = codes "GET";
  path = codes "/jobs/a1";
  request_id = codes "r1";
  context = record {
    span_context = record { has_trace_id = false; is_valid = false; trace_id = []; span_id = [] };
    job = none;
  };
  pattern = some (codes "/jobs/{id}");
  recording = false;
}

abbrev opened_exchange : Exchange (Site ℕ ℕ)
opened_exchange = record {
  writer = record { headers = []; sent = none; body = [] };
  span_name = none;
  log = [];
  world = record { world = 0; limiter = record { enabled = true; ttl = client_ttl; clients = [] } };
}

unauthorized_code : status_code (serve closed_api tokenless opened_exchange.world).1 ≡ 401
unfolding serve text_eq authenticated bearer_token
unauthorized_code = refl

-- The client gets a 401, and one line is logged.
replied_401 :
    status_of (serve_http titles polling closed_api tokenless opened_exchange).0.writer ≡ 401
unfolding serve_http serve text_eq authenticated bearer_token status_of trace_id_of
replied_401 = refl
