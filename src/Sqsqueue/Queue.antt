-- ===== src/Sqsqueue/Queue.antt =====
-- internal/adapters/sqsqueue/sqsqueue.go. The SQS client is a parameter: what its calls do to the
-- world `W`, and what they return. A nil string pointer reads as the empty string, as `aws.ToString`
-- does. The mutex makes each access to `receipts` one step.
use image_forge.Prelude.{
  ℕ, ◌*◌, ◌/◌, min, true, false, Option, none, some, List, [], ◌∷◌, ◌++◌, Text, codes, text_eq,
  lookup, insert, delete, if◌then◌else◌, length, ℤ, pos, pos_part, ltb_ℤ,
}
use image_forge.Errors.{Error, new, wrap, Result, ok, err}
use image_forge.Sqsqueue.Backoff.{default_backoff_base, default_backoff_max}

-- A message attribute: its data type and its string value.
pub record Attribute : Type 0 where
  pub data_type : Text
  pub string_value : Text

abbrev pub Attributes : Type 0
Attributes = List (Text × Attribute)

abbrev pub Meta : Type 0
Meta = List (Text × Text)

pub record Message : Type 0 where
  pub body : Text
  pub receipt_handle : Text
  pub attributes : Attributes

-- The slice of the SQS client that the adapter uses.
pub record Api (W : Type 0) : Type 0 where
  pub get_queue_url : Text → W → W × Result Text
  pub get_queue_attributes : Text → W → W × Result Meta
  pub send_message : Text → Text → Attributes → W → W × Option Error
  -- the URL, the most messages, the wait and the visibility timeout in seconds
  pub receive_message : Text → ℕ → ℕ → ℕ → W → W × Result (List Message)
  pub delete_message : Text → Text → W → W × Option Error
  pub change_message_visibility : Text → Text → ℕ → W → W × Option Error

-- ports.Delivery; no metadata is the nil map.
pub record Delivery : Type 0 where
  pub job_id : Text
  pub meta : Meta

pub record Queue : Type 0 where
  pub queue_url : Text
  -- nanoseconds
  pub wait_time : ℕ
  pub visibility_timeout : ℕ
  pub max_messages : ℕ
  pub backoff_base : ℕ
  pub backoff_max : ℕ
  pub receipts : List (Text × Text)

abbrev pub second : ℕ
second = 1000000000

-- The options that take a number; one that is not positive leaves the default in place.
unfoldable pub with_wait_time : ℤ → Queue → Queue
with_wait_time d q =
    if ltb_ℤ (pos 0) d then record q { wait_time = min (pos_part d) (20 * second) } else q

unfoldable pub with_visibility_timeout : ℤ → Queue → Queue
with_visibility_timeout d q =
    if ltb_ℤ (pos 0) d then record q { visibility_timeout = pos_part d } else q

unfoldable pub with_max_messages : ℤ → Queue → Queue
with_max_messages n q =
    if ltb_ℤ (pos 0) n then record q { max_messages = min (pos_part n) 10 } else q

unfoldable pub with_backoff : ℤ → ℤ → Queue → Queue
with_backoff base ceiling q =
    let q' = if ltb_ℤ (pos 0) base then record q { backoff_base = pos_part base } else q in
    if ltb_ℤ (pos 0) ceiling then record q' { backoff_max = pos_part ceiling } else q'

-- The queue that `New` builds before the options.
unfoldable pub initial : Text → Queue
initial url = record {
  queue_url = url;
  wait_time = 20 * second;
  visibility_timeout = 120 * second;
  max_messages = 10;
  backoff_base = default_backoff_base;
  backoff_max = default_backoff_max;
  receipts = [];
}

unfoldable pub apply_options : List (Queue → Queue) → Queue → Queue
apply_options [] q = q
apply_options (opt ∷ opts) q = apply_options opts (opt q)

unfoldable pub encode_meta : Meta → Attributes
encode_meta [] = []
encode_meta ((key, value) ∷ rest) =
    (key, record { data_type = codes "String"; string_value = value }) ∷ encode_meta rest

unfoldable pub decode_meta : Attributes → Meta
decode_meta [] = []
decode_meta ((key, attr) ∷ rest) =
    let meta = decode_meta rest in
    if text_eq attr.string_value [] then meta else (key, attr.string_value) ∷ meta

unfoldable pub take_receipt : Text → Queue → Queue × Option Text
take_receipt id q = elim (lookup id q.receipts) [
  | none ↦ (q, none)
  | some receipt ↦ (record q { receipts = delete id q.receipts }, some receipt)
]

unfoldable pub in_flight : Queue → ℕ
in_flight q = length q.receipts

-- The loop of `receive` over the messages: the receipts are recorded, a message with no body is
-- passed over.
unfoldable pub collect : List Message → Queue → Queue × List Delivery
collect [] q = (q, [])
collect (msg ∷ msgs) q =
    let kept : Queue = record q { receipts = insert msg.body msg.receipt_handle q.receipts } in
    let delivery : Delivery = record { job_id = msg.body; meta = decode_meta msg.attributes } in
    elim (text_eq msg.body []) [
      | true ↦ collect msgs q
      | false ↦ ((collect msgs kept).0, delivery ∷ (collect msgs kept).1)
    ]

module _ {W : Type 0} (api : Api W) where
  -- `Queue.Enqueue`; `meta` is what `telemetry.Inject` reads from the context.
  unfoldable pub enqueue : Text → Meta → Queue → W → W × Option Error
  enqueue id meta q w =
      if text_eq id []
      then (w, some (new (codes "sqsqueue: empty job id")))
      else sent (api.send_message q.queue_url id (encode_meta meta) w)
    where
      sent : W × Option Error → W × Option Error
      sent (w', none) = (w', none)
      sent (w', some e) = (w', some (wrap (codes "sqsqueue: enqueue " ++ id ++ codes ": ") e []))

  received : Queue → W × Result (List Message) → W × Queue × Result (List Delivery)
  received q (w, err e) = (w, q, err (wrap (codes "sqsqueue: receive: ") e []))
  received q (w, ok msgs) = let (q', deliveries) = collect msgs q in (w, q', ok deliveries)

  -- `Queue.receive`
  unfoldable pub receive : Queue → W → W × Queue × Result (List Delivery)
  unfolding received
  receive q w = received q (
      api.receive_message q.queue_url q.max_messages (q.wait_time / second)
        (q.visibility_timeout / second) w)

  unfoldable pub settled : Text → Queue → W × Option Error → W × Queue × Option Error
  settled what q (w, none) = (w, q, none)
  settled what q (w, some e) = (w, q, some (wrap what e []))

  deleted : Text → Queue × Option Text → W → W × Queue × Option Error
  deleted id (q, none) w = (w, q, none)
  deleted id (q, some receipt) w =
      settled (codes "sqsqueue: ack " ++ id ++ codes ": ") q
        (api.delete_message q.queue_url receipt w)

  -- `Queue.Ack`
  unfoldable pub ack : Text → Queue → W → W × Queue × Option Error
  unfolding deleted
  ack id q w = deleted id (take_receipt id q) w

  returned : Text → Queue × Option Text → W → W × Queue × Option Error
  returned id (q, none) w = (w, q, none)
  returned id (q, some receipt) w =
      settled (codes "sqsqueue: nack " ++ id ++ codes ": ") q
        (api.change_message_visibility q.queue_url receipt 0 w)

  -- `Queue.Nack`
  unfoldable pub nack : Text → Queue → W → W × Queue × Option Error
  unfolding returned
  nack id q w = returned id (take_receipt id q) w
