-- ===== src/Examples/Service.antt =====
-- Tokens and requests at concrete inputs.
use image_forge.Usecase.CreateJob
use image_forge.Memrepo
use image_forge.Usecase.Keys.{original_key}
use image_forge.Httpapi.Upload.{replied, handle_upload}
use image_forge.Httpapi.Upload.Accepted.{IsPromised, handle_upload-IsPromised}
use image_forge.Httpapi.Answers.{spec_from_domain, JobResponse, new_job_response}
use image_forge.Usecase.CreateJob.{new_job, execute}
use image_forge.Domain.Job.{status_text, Job}
use image_forge.Domain.Spec.{
  png, format_text, valid_format, TransformationSpec, dimension_errors, format_errors,
  quality_errors, validate,
}
use image_forge.Httpapi.RateLimit.{client_ttl}
use image_forge.Httpapi.Serve.{uploads, Request, Api, Site, serve}
use image_forge.Httpapi.Serve.Guarded.{Admitted, service, serve-Admitted}
use image_forge.Local.{Host, repository}
use image_forge.Local.Contract.{stored, get_keeps, laws}
use image_forge.Ports.{Storage, Queue}
use image_forge.Prelude.{
  ℕ, ◌+◌, ◌-◌, ◌≡◌, refl, sym, ap, ◌⊎◌, Bool, true, false, ◌&&◌, none, some, [], ◌∷◌, ◌++◌, arith,
  Text, codes, text_eq, blank, insert, ltb, leb, ◌==◌, if◌then◌else◌, pos,
}
use image_forge.Errors.{invalid_token, Error, new, is, join_all, Result, ok, err}
use image_forge.Httpapi.Auth.{
  issuer_name, default_token_ttl, clock_skew, Claims, Checks, Jwt, TokenIssuer, issue, verify,
}
use image_forge.Httpapi.Auth.Tokens.{Documented, verify-issue, verify-expired}

-- A JWT library whose tokens are the claims themselves: the issuer and the signature are not written.
signed_claims : Bool → Claims → Result Text
signed_claims true c = ok (c.issued_at ∷ c.not_before ∷ c.expires_at ∷ c.subject)
signed_claims false c = err (new (codes "unknown issuer"))

checked_claims : Bool → Claims → Result Claims
checked_claims true c = ok c
checked_claims false c = err (new (codes "token has invalid claims"))

parsed : Text → Checks → Result Claims
unfolding checked_claims
parsed (iat ∷ nbf ∷ exp ∷ subject) checks =
    checked_claims (leb nbf (checks.now + checks.leeway) && ltb checks.now (exp + checks.leeway))
      (record {
        issuer = checks.issuer;
        subject = subject;
        issued_at = iat;
        not_before = nbf;
        expires_at = exp;
      })
parsed _ checks = err (new (codes "token is malformed"))

abbrev plain_jwt : Jwt
plain_jwt = record {
  signed_string = λ method c key. signed_claims (text_eq c.issuer issuer_name) c;
  parse_with_claims = λ text key checks. parsed text checks;
}

signed_claims-ok :
    (b : Bool) (c : Claims) (text : Text)
    → signed_claims b c ≡ ok text
    → text ≡ c.issued_at ∷ c.not_before ∷ c.expires_at ∷ c.subject
unfolding signed_claims
signed_claims-ok true c text h = ground arith
signed_claims-ok false c text h = absurd (ground arith)

plain_jwt-Documented : Documented plain_jwt
unfolding parsed
plain_jwt-Documented = record {
  reads = λ c key text now h q early late. rw (signed_claims-ok _ c text h) (
      let e : (leb c.not_before (now + clock_skew) && ltb now (c.expires_at + clock_skew)) ≡ true =
        ground arith in
      rw (e, checked_claims) (ap (λ i. ok (record c { issuer = i })) (sym q)));
  expires = λ c key text now h late. (
    new (codes "token has invalid claims"),
    rw (signed_claims-ok _ c text h) (
        let e : (leb c.not_before (now + clock_skew) && ltb now (c.expires_at + clock_skew))
            ≡ false =
          ground arith in
        rw (e, checked_claims)),
  );
}

abbrev hourly : TokenIssuer
hourly = record {
  key = codes "0123456789abcdef0123456789abcdef";
  ttl = default_token_ttl;
  secret = [];
}

abbrev ann_token : Text
ann_token = 1000000000 ∷ 1000000000 ∷ 3601000000000 ∷ codes "ann"

ann_issued : issue plain_jwt hourly (codes "ann") 1500000000 ≡ ok ann_token
unfolding issue signed_claims text_eq blank
ann_issued = refl

verify-issue_example : verify plain_jwt hourly ann_token 3000000000000 ≡ ok (codes "ann")
verify-issue_example =
    verify-issue plain_jwt plain_jwt-Documented hourly (codes "ann") 1500000000 3000000000000
      ann_token ann_issued (omega arith) (omega arith)

verify-expired_example :
    (e : Error) × (verify plain_jwt hourly ann_token 4000000000000 ≡ err e)
    × (is e invalid_token ≡ true)
verify-expired_example =
    verify-expired plain_jwt plain_jwt-Documented hourly (codes "ann") 1500000000 4000000000000
      ann_token ann_issued (omega arith)

-- The service on the in-memory repository with its bucket of requests, and an upload by a client
-- with a token
abbrev api : Api Host ℕ
api = record {
  create_job = λ input h. (h, none, none);
  jobs = repository;
  jwt = plain_jwt;
  issuer = hourly;
  rate = record {
    fresh = 2;
    reserve = λ now tokens. (tokens - 1, true, if tokens == 0 then 200000000 else 0);
    cancel = λ now tokens. tokens;
  };
  limit = codes "5";
  public_base_url = [];
  max_upload_bytes = 10485760;
  ready_check = none;
  ctx_err = λ h. h.ctx_err;
  detect = λ head. codes "image/png";
  decode = λ raw. ok (record {
    width = pos 64;
    height = pos 64;
    format = codes "png";
    quality = pos 0;
    watermark = false;
    strip_metadata = false;
  });
}

abbrev pub site : Site Host ℕ
site = record {
  world = record { repo = record { jobs = []; clock = 9 }; ctx_err = none; objects = [] };
  limiter = record { enabled = true; ttl = client_ttl; clients = [] };
}

abbrev upload : Request
upload = record {
  route = uploads (record {
    parse_error = none;
    file = some (record { filename = codes "a.png"; failure = none; content = 1 ∷ 2 ∷ [] });
    spec = codes "{}";
  });
  authorization = codes "Bearer " ++ ann_token;
  now = 1500000000;
}

abbrev memory : Storage Host
memory = record {
  put = λ key content h. (record h { objects = insert key content h.objects }, none);
  fetch = λ key h. (h, ok []);
}

abbrev pub jobs_queue : Queue Host
jobs_queue = record { enqueue = λ id h. (h, none) }

serve-Admitted_example :
    Admitted (service api memory jobs_queue (λ h. (h, codes "b2")) (λ h. (h, 7))) upload site
    ⊎ ((j : Text)
        → stored
            (serve
              (service api memory jobs_queue (λ h. (h, codes "b2")) (λ h. (h, 7)))
              upload
              site).0.world
            j
          ≡ stored site.world j)
serve-Admitted_example =
    serve-Admitted api memory jobs_queue (λ h. (h, codes "b2")) (λ h. (h, 7)) stored get_keeps
      (λ f j w h. absurd (ground arith)) upload site

abbrev pub icon_spec : TransformationSpec
icon_spec = record {
  width = pos 64;
  height = pos 64;
  output = png;
  quality = pos 0;
  watermark = false;
  strip_metadata = false;
}

abbrev pub icon_job : Job
icon_job = new_job (codes "b2") icon_spec 7

abbrev pub after_upload : Host
after_upload = record site.world {
  repo = record { jobs = (codes "b2", icon_job) ∷ []; clock = 9 };
  objects = (codes "originals/b2", 1 ∷ 2 ∷ []) ∷ [];
}

abbrev pub icon_response : JobResponse
icon_response = record {
  id = codes "b2";
  status = codes "pending";
  transformation = record {
    width = pos 64;
    height = pos 64;
    format = codes "png";
    quality = pos 0;
    watermark = false;
    strip_metadata = false;
  };
  created_at = 7;
  updated_at = 7;
  result_key = [];
  result_url = [];
  error = [];
}

handle_upload-IsPromised_example :
    IsPromised repository jobs_queue [] icon_spec after_upload (codes "/jobs/b2") icon_response
unfolding handle_upload execute replied validate join_all dimension_errors format_errors
    quality_errors valid_format repository Memrepo.save text_eq insert status_text new_job_response
    spec_from_domain format_text original_key CreateJob.validated CreateJob.named CreateJob.uploaded
    CreateJob.stamped CreateJob.saved CreateJob.enqueued
handle_upload-IsPromised_example =
    handle_upload-IsPromised memory repository jobs_queue (λ h. (h, codes "b2")) (λ h. (h, 7)) laws
      (λ h. h.ctx_err) []
      (record { put_keeps = λ key content j w. refl; fetch_keeps = λ key j w. refl })
      (λ id j w. refl) (λ j w. refl) (λ j w. refl) icon_spec (1 ∷ 2 ∷ []) site.world after_upload
      (codes "/jobs/b2") icon_response refl
