-- ===== src/Config/Aws.antt =====
-- internal/adapters/awscfg/awscfg.go, and the choice that `Open` of internal/adapters/backend.go makes.
pub mod Clients
pub mod Validated
use image_forge.Prelude.{
  Bool, not, ◌||◌, Option, List, [], ◌∷◌, ◌++◌, Text, codes, text_eq, blank, if◌then◌else◌,
}
use image_forge.Errors.{
  unknown_backend, missing_setting, Error, sentinel, wrap, join_all, Result, ok, err,
}
use image_forge.Domain.Spec.{quote}
use image_forge.Config.{Environment, env, backend_memory, backend_aws}

abbrev pub default_region : Text
default_region = codes "eu-west-1"

abbrev pub default_bucket : Text
default_bucket = codes "imageforge-media"

abbrev pub default_queue : Text
default_queue = codes "imageforge-jobs"

abbrev pub default_table : Text
default_table = codes "imageforge-jobs"

pub record Settings : Type 0 where
  pub region : Text
  pub endpoint : Text
  pub bucket : Text
  pub queue : Text
  pub table : Text

unfoldable pub settings_from_env : Environment → Settings
unfolding env
settings_from_env lookup_env = record {
  region = env lookup_env (codes "AWS_REGION") default_region;
  endpoint = env lookup_env (codes "AWS_ENDPOINT_URL") [];
  bucket = env lookup_env (codes "IMAGEFORGE_S3_BUCKET") default_bucket;
  queue = env lookup_env (codes "IMAGEFORGE_SQS_QUEUE") default_queue;
  table = env lookup_env (codes "IMAGEFORGE_DYNAMODB_TABLE") default_table;
}

unfoldable pub uses_local_stack : Settings → Bool
uses_local_stack s = not (text_eq s.endpoint [])

missing : Text → Text → List Error → List Error
missing name value errs =
    if blank value then wrap [] (sentinel missing_setting) (codes ": " ++ name) ∷ errs else errs

-- `Settings.Validate`
unfoldable pub validate_settings : Settings → Option Error
unfolding missing
validate_settings s = join_all (
    missing (codes "region") s.region (
      missing (codes "bucket") s.bucket
        (missing (codes "queue") s.queue (missing (codes "table") s.table []))))

-- Which adapters `Open` builds.
pub data Choice : Type 0 where
  memory_set aws_set : Choice

unfoldable pub choose : Text → Result Choice
choose name =
    if text_eq name backend_memory || text_eq name []
    then ok memory_set
    else if text_eq name backend_aws
    then ok aws_set
    else err (
        wrap (codes "adapters: ") (sentinel unknown_backend)
          (codes ": " ++ quote name ++ codes " (want \"memory\" or \"aws\")"))
