-- ===== src/Config/Backend/Opened.antt =====
-- Why the AWS adapters cannot be opened.
use image_forge.Config.Aws.Validated.{validated}
use image_forge.Sqsqueue.Open.Refusals.{new_queue-err}
use image_forge.S3storage.{Bucket}
use image_forge.Dynamorepo.Table.{new_repository}
use image_forge.Prelude.{
  ◌≡◌, refl, ◌⊎◌, inl, inr, false, Option, none, some, [], arith, Text, blank,
}
use image_forge.Errors.{Error, Result, ok, err, Result-cases}
use image_forge.Config.{Environment}
use image_forge.Config.Aws.{Settings, validate_settings}
use image_forge.Config.Backend.{
  Sdk, load, with_jobs, with_queue, with_bucket, with_config, with_settings, open_aws,
}
use image_forge.S3storage
use image_forge.Sqsqueue.Open
use image_forge.Sqsqueue.Queue
use image_forge.Dynamorepo.Table

new_storage-ok :
    (name : Text) → blank name ≡ false → (b : Bucket) × (S3storage.new_storage name [] ≡ ok b)
unfolding S3storage.new_storage
new_storage-ok name h = elim (Result-cases (S3storage.new_storage name [])) [
  | inl p ↦ p
  | inr (e, q) ↦ absurd (ground arith)
]

module _ {W V : Type 0} (sdk : Sdk W V) (lookup_env : Environment) where
  with_jobs-err :
      (s : Settings) (b : Bucket) (q : Queue.Queue) (w : W) (r : Result (Table.Client W V × Text))
      (e : Error)
      → (with_jobs sdk lookup_env s b q w r).1 ≡ err e
      → (x : Error) × (r ≡ err x)
  unfolding with_jobs
  with_jobs-err s b q w (err x) e h = (x, refl)
  with_jobs-err s b q w (ok j) e h = absurd (ground arith)

  with_queue-err :
      (s : Settings) (b : Bucket) (r : W × Result Queue.Queue) (e : Error)
      → blank s.table ≡ false
      → (with_queue sdk lookup_env s b r).1 ≡ err e
      → (x : Error) × (r.1 ≡ err x)
  unfolding with_queue new_repository
  with_queue-err s b (w, err x) e t h = (x, refl)
  with_queue-err s b (w, ok q) e t h =
      let (x, p) = with_jobs-err s b q w (new_repository (some sdk.dynamodb) s.table) e h in
      absurd (ground arith)

  with_bucket-err :
      (s : Settings) (w : W) (r : Result Bucket) (b : Bucket) (e : Error)
      → r ≡ ok b
      → blank s.queue ≡ false
      → blank s.table ≡ false
      → (with_bucket sdk lookup_env s w r).1 ≡ err e
      → (x : Error) × ((sdk.sqs.get_queue_url s.queue w).1 ≡ err x)
  unfolding with_bucket
  with_bucket-err s w (err x) b e p q t h = absurd (ground arith)
  with_bucket-err s w (ok c) b e p q t h =
      let (x, k) = with_queue-err s c (Open.new_queue sdk.sqs s.queue [] w) e t h in
      new_queue-err sdk.sqs s.queue [] w x q k

  with_config-err :
      (s : Settings) (r : W × Option Error) (e : Error)
      → blank s.bucket ≡ false
      → blank s.queue ≡ false
      → blank s.table ≡ false
      → (with_config sdk lookup_env s r).1 ≡ err e
      → ((x : Error) × (r.1 ≡ some x))
        ⊎ ((x : Error) × ((sdk.sqs.get_queue_url s.queue r.0).1 ≡ err x))
  unfolding with_config
  with_config-err s (w, some x) e b q t h = inl (x, refl)
  with_config-err s (w, none) e b q t h =
      let (c, p) = new_storage-ok s.bucket b in
      inr (with_bucket-err s w (S3storage.new_storage s.bucket []) c e p q t h)

  -- With settings that `Validate` accepts, `openAWS` fails only where the SDK does: in loading its
  -- configuration, or in finding the queue by its name. No adapter refuses the name it is given.
  pub open_aws-err :
      (s : Settings) (w : W) (e : Error)
      → validate_settings s ≡ none
      → (open_aws sdk lookup_env s w).1 ≡ err e
      → ((x : Error) × ((load sdk lookup_env s w).1 ≡ some x))
        ⊎ ((x : Error) × ((sdk.sqs.get_queue_url s.queue (load sdk lookup_env s w).0).1 ≡ err x))
  unfolding open_aws with_settings
  open_aws-err s w e v h =
      let (b, q, t) = validated s v in
      with_config-err s (load sdk lookup_env s w) e b q t (rw v at h)
