-- ===== src/Errors.antt =====
-- Go errors as values: what `errors.New`, `fmt.Errorf` with `%w` and `errors.Join` build, and what
-- `errors.Is` and `Error()` read. Package-level error variables are the constructors of `Sentinel`.
-- `none` is the nil error.
use image_forge.Prelude.{
  ℕ, ◌≡◌, refl, ◌⊎◌, inl, inr, Bool, false, ◌||◌, Option, none, some, List, [], ◌∷◌, ◌++◌, Text,
  codes, ◌==◌,
}

pub data Sentinel : Type 0 where
  -- domain
  invalid_dimensions invalid_format invalid_quality : Sentinel
  -- ports and use cases
  job_not_found job_not_pending no_source : Sentinel
  -- adapters
  queue_closed invalid_key unsupported_format empty_source no_target_size invalid_max_dimension :
      Sentinel
  unsupported_media_type no_credentials invalid_token : Sentinel
  no_signing_key unknown_backend missing_setting : Sentinel
  -- the worker pool
  shutdown_timeout : Sentinel
  -- the standard library's: context.Canceled, context.DeadlineExceeded, fs.ErrNotExist
  canceled deadline_exceeded not_exist : Sentinel

mutual
  pub data Error : Type 0 where
    -- a fresh `errors.New`, or an `Errorf` without `%w`: it is no sentinel
    new : Text → Error
    sentinel : Sentinel → Error
    -- `Errorf("before%wafter", e)`
    wrap : Text → Error → Text → Error
    join : Errors → Error

  pub data Errors : Type 0 where
    end : Errors
    also : Error → Errors → Errors

-- Distinct numbers for distinct variables.
abbrev pub tag : Sentinel → ℕ
tag invalid_dimensions = 0
tag invalid_format = 1
tag invalid_quality = 2
tag job_not_found = 3
tag job_not_pending = 4
tag no_source = 5
tag queue_closed = 6
tag invalid_key = 7
tag unsupported_format = 8
tag empty_source = 9
tag no_target_size = 10
tag invalid_max_dimension = 11
tag unsupported_media_type = 12
tag no_credentials = 13
tag invalid_token = 14
tag shutdown_timeout = 15
tag canceled = 16
tag deadline_exceeded = 17
tag not_exist = 18
tag no_signing_key = 19
tag unknown_backend = 20
tag missing_setting = 21

-- `errors.Is` against a sentinel.
unfoldable mutual
  pub is : Error → Sentinel → Bool
  is (new m) s = false
  is (sentinel t) s = tag t == tag s
  is (wrap before e after) s = is e s
  is (join es) s = any_is es s

  pub any_is : Errors → Sentinel → Bool
  any_is end s = false
  any_is (also e es) s = is e s || any_is es s

abbrev pub sentinel_text : Sentinel → Text
sentinel_text invalid_dimensions = codes "invalid dimensions"
sentinel_text invalid_format = codes "invalid format"
sentinel_text invalid_quality = codes "invalid quality"
sentinel_text job_not_found = codes "job not found"
sentinel_text job_not_pending = codes "job is not pending"
sentinel_text no_source = codes "no source image provided"
sentinel_text queue_closed = codes "queue is closed"
sentinel_text invalid_key = codes "invalid storage key"
sentinel_text unsupported_format = codes "unsupported output format"
sentinel_text empty_source = codes "source image has no dimensions"
sentinel_text no_target_size = codes "resize requires a width or a height"
sentinel_text invalid_max_dimension = codes "thumbnail requires a positive maximum dimension"
sentinel_text unsupported_media_type = codes "unsupported media type"
sentinel_text no_credentials = codes "no bearer token"
sentinel_text invalid_token = codes "invalid token"
sentinel_text shutdown_timeout = codes "worker: timed out waiting for in-flight jobs"
sentinel_text canceled = codes "context canceled"
sentinel_text deadline_exceeded = codes "context deadline exceeded"
sentinel_text not_exist = codes "file does not exist"
sentinel_text no_signing_key = codes "no signing key configured"
sentinel_text unknown_backend = codes "unknown backend"
sentinel_text missing_setting = codes "missing aws setting"

-- `Error()`. Joined errors stand on lines of their own.
unfoldable mutual
  pub message : Error → Text
  message (new m) = m
  message (sentinel s) = sentinel_text s
  message (wrap before e after) = before ++ message e ++ after
  message (join es) = messages es

  pub messages : Errors → Text
  messages end = []
  messages (also e end) = message e
  messages (also e (also e' es)) = message e ++ 10 ∷ messages (also e' es)

unfoldable pub errors : List Error → Errors
errors [] = end
errors (e ∷ es) = also e (errors es)

-- `errors.Join`, which is nil for no errors.
unfoldable pub join_all : List Error → Option Error
unfolding errors
join_all [] = none
join_all (e ∷ es) = some (join (also e (errors es)))

-- What a Go function with results `(T, error)` returns, where it returns a zero T beside an error.
pub data Result {ℓ} (A : Type ℓ) : Type ℓ where
  ok : A → Result A
  err : Error → Result A

pub Result-cases {ℓ} :
    {A : Type ℓ} (r : Result A) → ((a : A) × (r ≡ ok a)) ⊎ ((e : Error) × (r ≡ err e))
Result-cases (ok a) = inl (a, refl)
Result-cases (err e) = inr (e, refl)
