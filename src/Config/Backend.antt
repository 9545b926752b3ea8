-- ===== src/Config/Backend.antt =====
-- internal/adapters/backend.go and `Load` of internal/adapters/awscfg/awscfg.go: the sets of adapters
-- that `Open` builds. The SDK's configuration and its clients are parameters.
pub mod Opened
use image_forge.Prelude.{
  ℕ, Bool, ◌&&◌, Option, none, some, [], ◌++◌, Text, codes, text_eq, if◌then◌else◌, ℤ,
}
use image_forge.Errors.{Error, wrap, Result, ok, err}
use image_forge.Localstorage.{Answers}
use image_forge.Localstorage
use image_forge.Memqueue
use image_forge.Memrepo
use image_forge.S3storage.{Bucket}
use image_forge.S3storage
use image_forge.Dynamorepo.Table
use image_forge.Sqsqueue.Queue.{Api, Queue}
use image_forge.Sqsqueue.Queue
use image_forge.Sqsqueue.Open
use image_forge.Dynamorepo.Table.{new_repository}
use image_forge.Config.{Environment}
use image_forge.Config.Aws.{
  Settings, settings_from_env, uses_local_stack, validate_settings, Choice, memory_set, aws_set,
  choose,
}

pub record MemorySet : Type 0 where
  pub description : Text
  pub root : Text
  pub queue : Memqueue.Queue
  pub jobs : Memrepo.Repository

pub record AwsSet (W V : Type 0) : Type 0 where
  pub description : Text
  pub bucket : Bucket
  pub queue : Queue.Queue
  pub jobs : Table.Client W V × Text

pub data Set (W V : Type 0) : Type 0 where
  memory : MemorySet → Set W V
  aws : AwsSet W V → Set W V

-- `LoadDefaultConfig` by the region and whether the placeholder credentials are given, and the
-- clients that are made of its result.
pub record Sdk (W V : Type 0) : Type 0 where
  pub load_default_config : Text → Bool → W → W × Option Error
  pub sqs : Api W
  pub dynamodb : Table.Client W V

adapters_error : Error → Error
adapters_error e = wrap (codes "adapters: ") e []

memory_stored : ℤ → ℕ → Result Text → Result MemorySet
memory_stored buffer now (err e) = err (wrap (codes "adapters: storage: ") e [])
memory_stored buffer now (ok root) = ok (record {
  description = codes "filesystem store at " ++ root ++ codes ", in-memory queue and repository";
  root = root;
  queue = Memqueue.new_queue buffer;
  jobs = Memrepo.empty now;
})

-- `openMemory`, in a working directory, by the system's answers, at an instant
unfoldable pub open_memory : Result Text → Answers → Text → ℤ → ℕ → Result MemorySet
unfolding memory_stored
open_memory cwd o storage_dir buffer now =
    memory_stored buffer now (Localstorage.new_storage cwd o storage_dir)

description_of : Settings → Text → Text
description_of s url =
    (if text_eq s.endpoint [] then codes "aws" else s.endpoint)
    ++ codes ": bucket="
    ++ s.bucket
    ++ codes " queue="
    ++ url
    ++ codes " table="
    ++ s.table
    ++ codes " region="
    ++ s.region

getenv : Option Text → Text
getenv none = []
getenv (some v) = v

module _ {W V : Type 0} (sdk : Sdk W V) (lookup_env : Environment) where
  config_loaded : W × Option Error → W × Option Error
  config_loaded (w, none) = (w, none)
  config_loaded (w, some e) = (w, some (wrap (codes "awscfg: load: ") e []))

  -- `Load`
  unfoldable pub load : Settings → W → W × Option Error
  unfolding config_loaded getenv uses_local_stack
  load s w = config_loaded (
      sdk.load_default_config s.region
        (uses_local_stack s && text_eq (getenv (lookup_env (codes "AWS_ACCESS_KEY_ID"))) []) w)

  with_jobs :
      Settings
      → Bucket
      → Queue.Queue
      → W
      → Result (Table.Client W V × Text)
      → W × Result (AwsSet W V)
  unfolding adapters_error description_of
  with_jobs s b q w (err e) = (w, err (adapters_error e))
  with_jobs s b q w (ok jobs) = (
    w,
    ok (record { description = description_of s q.queue_url; bucket = b; queue = q; jobs = jobs }),
  )

  with_queue : Settings → Bucket → W × Result Queue.Queue → W × Result (AwsSet W V)
  unfolding adapters_error with_jobs new_repository
  with_queue s b (w, err e) = (w, err (adapters_error e))
  with_queue s b (w, ok q) = with_jobs s b q w (new_repository (some sdk.dynamodb) s.table)

  with_bucket : Settings → W → Result Bucket → W × Result (AwsSet W V)
  unfolding adapters_error with_queue
  with_bucket s w (err e) = (w, err (adapters_error e))
  with_bucket s w (ok b) = with_queue s b (Open.new_queue sdk.sqs s.queue [] w)

  with_config : Settings → W × Option Error → W × Result (AwsSet W V)
  unfolding adapters_error with_bucket
  with_config s (w, some e) = (w, err (adapters_error e))
  with_config s (w, none) = with_bucket s w (S3storage.new_storage s.bucket [])

  with_settings : Settings → Option Error → W → W × Result (AwsSet W V)
  unfolding adapters_error with_config
  with_settings s (some e) w = (w, err (adapters_error e))
  with_settings s none w = with_config s (load s w)

  -- `openAWS`; the handler that is told of receive errors is left out.
  unfoldable pub open_aws : Settings → W → W × Result (AwsSet W V)
  unfolding with_settings
  open_aws s w = with_settings s (validate_settings s) w

  aws_opened : W × Result (AwsSet W V) → W × Result (Set W V)
  aws_opened (w, ok s) = (w, ok (aws s))
  aws_opened (w, err e) = (w, err e)

  memory_opened : W → Result MemorySet → W × Result (Set W V)
  memory_opened w (ok s) = (w, ok (memory s))
  memory_opened w (err e) = (w, err e)

  chosen : Result Text → Answers → Text → ℤ → ℕ → Result Choice → W → W × Result (Set W V)
  unfolding aws_opened memory_opened
  chosen cwd o dir buffer now (err e) w = (w, err e)
  chosen cwd o dir buffer now (ok memory_set) w = memory_opened w (open_memory cwd o dir buffer now)
  chosen cwd o dir buffer now (ok aws_set) w =
      aws_opened (open_aws (settings_from_env lookup_env) w)

  -- `Open`
  unfoldable pub open_set : Result Text → Answers → Text → ℤ → ℕ → Text → W → W × Result (Set W V)
  unfolding chosen choose
  open_set cwd o dir buffer now backend w = chosen cwd o dir buffer now (choose backend) w
