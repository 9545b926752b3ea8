-- ===== src/Examples/Settings.antt =====
-- An SQS queue that is opened with out-of-range settings, and what `New` and `Depth` parse.
use image_forge.Prelude.{
  ℕ, suc, ◌*◌, ◌≡◌, refl, true, false, none, List, [], ◌∷◌, ◌++◌, codes, text_eq, has_prefix, blank,
  contains, lookup, pos, negsuc,
}
use image_forge.Errors.{ok}
use image_forge.Sqsqueue.Queue.{
  Api, Queue, second, with_wait_time, with_max_messages, initial, apply_options,
}
use image_forge.Sqsqueue.Open.{atoi, new_queue, depth}

abbrev naming_api : Api ℕ
naming_api = record {
  get_queue_url = λ name w. (suc w, ok (codes "https://sqs/" ++ name));
  get_queue_attributes = λ url w. (w, ok ((codes "ApproximateNumberOfMessages", codes "12") ∷ []));
  send_message = λ url body attrs w. (w, none);
  receive_message = λ url most wait visible w. (w, ok []);
  delete_message = λ url receipt w. (w, none);
  change_message_visibility = λ url receipt visible w. (w, none);
}

abbrev eager : List (Queue → Queue)
eager =
    with_wait_time (pos (60 * second))
    ∷ with_max_messages (pos 25)
    ∷ with_max_messages (negsuc 0)
    ∷ []

abbrev opened_queue : Queue
opened_queue = record {
  queue_url = codes "https://sqs/jobs";
  wait_time = 20 * second;
  visibility_timeout = 120 * second;
  max_messages = 10;
  backoff_base = 250000000;
  backoff_max = 30000000000;
  receipts = [];
}

eager-opens : (new_queue naming_api (codes "jobs") eager 0).1 ≡ ok opened_queue
unfolding new_queue blank contains has_prefix apply_options initial with_wait_time with_max_messages
eager-opens = refl

measures : (depth naming_api opened_queue 0).1 ≡ ok (pos 12)
unfolding depth atoi lookup text_eq
measures = refl

signed : (atoi (codes "-30") ≡ ok (negsuc 29)) × (atoi (codes "+7") ≡ ok (pos 7))
unfolding atoi
signed = (refl, refl)

wide_space : (blank (32 ∷ 226 ∷ 128 ∷ 131 ∷ 9 ∷ []) ≡ true) × (blank (codes " a ") ≡ false)
unfolding blank
wide_space = (refl, refl)
