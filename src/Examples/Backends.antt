-- ===== src/Examples/Backends.antt =====
-- The opening of the adapters at concrete settings.
use image_forge.Prelude.{
  ◌≡◌, refl, ◌⊎◌, false, none, some, [], Text, codes, has_prefix, blank, contains,
}
use image_forge.Errors.{Error, new, wrap, join_all, ok, err}
use image_forge.Config.{Environment}
use image_forge.Config.Aws.{Settings, validate_settings}
use image_forge.Config.Backend.{Sdk, load, open_aws}
use image_forge.Config.Backend.Opened.{open_aws-err}
use image_forge.Sqsqueue.Open
use image_forge.S3storage

abbrev missing_queue : Error
missing_queue = new (codes "QueueDoesNotExist")

abbrev bare_sdk : Sdk Unit Text
bare_sdk = record {
  load_default_config = λ region placeholder w. (w, none);
  sqs = record {
    get_queue_url = λ name w. (w, err missing_queue);
    get_queue_attributes = λ url w. (w, ok []);
    send_message = λ url body attrs w. (w, none);
    receive_message = λ url most wait visible w. (w, ok []);
    delete_message = λ url receipt w. (w, none);
    change_message_visibility = λ url receipt visible w. (w, none);
  };
  dynamodb = record {
    member_s = λ s. s;
    member_n = λ n. n;
    marshal = λ i. err missing_queue;
    unmarshal = λ attrs. err missing_queue;
    put_item = λ table attrs w. (w, none);
    get_item = λ input w. (w, ok []);
    update_item = λ input w. (w, none);
    condition_failed = λ e. false;
  };
}

abbrev defaults : Settings
defaults = record {
  region = codes "eu-west-1";
  endpoint = [];
  bucket = codes "imageforge-media";
  queue = codes "imageforge-jobs";
  table = codes "imageforge-jobs";
}

abbrev no_variables : Environment
no_variables = λ key. none

open_aws-err_example :
    ((x : Error) × ((load bare_sdk no_variables defaults tt).1 ≡ some x))
    ⊎ ((x : Error) × ((bare_sdk.sqs.get_queue_url
            (codes "imageforge-jobs")
            (load bare_sdk no_variables defaults tt).0).1
          ≡ err x))
unfolding validate_settings open_aws load Open.new_queue S3storage.new_storage join_all blank
    contains has_prefix
open_aws-err_example =
    open_aws-err bare_sdk no_variables defaults tt
      (wrap (codes "adapters: ")
        (wrap (codes "sqsqueue: resolve queue \"imageforge-jobs\": ") missing_queue []) [])
      refl refl
