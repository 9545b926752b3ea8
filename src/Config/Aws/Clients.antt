-- ===== src/Config/Aws/Clients.antt =====
-- internal/adapters/awscfg/awscfg.go: what S3, SQS and DynamoDB set in the options of their clients,
-- over what the SDK has there.
use image_forge.Config.Aws.{Settings, uses_local_stack}
use image_forge.Prelude.{
  ◌≡◌, ◌≢◌, ◌⊎◌, Bool, true, Option, some, [], arith, Text, text_eq_iff, if◌then◌else◌,
}

pub record ClientOptions : Type 0 where
  pub base_endpoint : Option Text
  pub use_path_style : Bool

-- `S3`
unfoldable pub s3_options : Settings → ClientOptions → ClientOptions
s3_options s o =
    if uses_local_stack s
    then record o { base_endpoint = some s.endpoint; use_path_style = true }
    else o

-- `SQS`
unfoldable pub sqs_options : Settings → ClientOptions → ClientOptions
sqs_options s o = if uses_local_stack s then record o { base_endpoint = some s.endpoint } else o

-- `DynamoDB`
unfoldable pub dynamodb_options : Settings → ClientOptions → ClientOptions
dynamodb_options s o =
    if uses_local_stack s then record o { base_endpoint = some s.endpoint } else o

-- The three clients go to one place: all to the endpoint that is set, S3 with the bucket in the
-- path, or, where none is set, each to what the SDK chose for it.
clients-agree :
    (s : Settings) (o : ClientOptions)
    → ((s.endpoint ≢ [])
        × ((s3_options s o).base_endpoint ≡ some s.endpoint)
        × ((s3_options s o).use_path_style ≡ true)
        × ((sqs_options s o).base_endpoint ≡ some s.endpoint)
        × ((dynamodb_options s o).base_endpoint ≡ some s.endpoint))
      ⊎ ((s.endpoint ≡ [])
          × (s3_options s o ≡ o)
          × (sqs_options s o ≡ o)
          × (dynamodb_options s o ≡ o))
unfolding s3_options sqs_options dynamodb_options uses_local_stack
clients-agree s o = ground (arith, text_eq_iff s.endpoint [])
