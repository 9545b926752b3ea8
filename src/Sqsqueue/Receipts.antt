-- ===== src/Sqsqueue/Receipts.antt =====
-- Receipts: which delivery `Ack` and `Nack` settle, and metadata across the queue.
use image_forge.Errors.{Error}
use image_forge.Prelude.{
  ◌≡◌, refl, ap, ◌∙◌, ◌≢◌, ◌↔◌, inl, inr, true, false, Option, none, some, List, [], ◌∷◌, ◌++◌,
  arith, Text, codes, text_eq_iff, text_eq, lookup-insert, lookup-delete, lookup, delete,
  if◌then◌else◌, Bool-cases,
}
use image_forge.Sqsqueue.Queue.{
  Meta, Message, Api, Queue, encode_meta, decode_meta, take_receipt, collect, settled, ack, nack,
}

-- The receipt of the last message of a job, if there is one among the messages.
abbrev pub latest : Text → List Message → Option Text → Option Text
latest id [] old = old
latest id (m ∷ ms) old = latest id ms (if text_eq m.body id then some m.receipt_handle else old)

other_id : (body id : Text) → id ≢ [] → text_eq body [] ≡ true → text_eq body id ≡ false
other_id body id h e = ground (arith, text_eq_iff body [], text_eq_iff body id)

-- A receive records, for each job, the receipt of its last delivery, and forgets no other receipt;
-- a job's earlier receipt is replaced by a duplicate delivery.
pub lookup-collect :
    (id : Text) (ms : List Message) (q : Queue)
    → id ≢ []
    → lookup id (collect ms q).0.receipts ≡ latest id ms (lookup id q.receipts)
unfolding collect
lookup-collect id [] q h = refl
lookup-collect id (m ∷ ms) q h = elim (Bool-cases (text_eq m.body [])) [
  | inl e ↦ rw (e, collect) (rw (other_id m.body id h e) (lookup-collect id ms q h))
  | inr e ↦
      rw (e, collect)
        (lookup-collect id ms _ h
          ∙ ap (latest id ms) (lookup-insert m.body id m.receipt_handle q.receipts))
]

-- The entries with a value.
abbrev pub non_empty : Meta → Meta
non_empty [] = []
non_empty ((k, v) ∷ m) = let rest = non_empty m in if text_eq v [] then rest else (k, v) ∷ rest

-- Metadata that is decoded after it was encoded is what was enqueued, but for entries with an
-- empty value.
decode-encode : (m : Meta) → decode_meta (encode_meta m) ≡ non_empty m
unfolding decode_meta encode_meta
decode-encode [] = refl
decode-encode ((k, v) ∷ m) = rw (decode-encode m) refl

-- What taking a receipt does to the queue.
take_receipt-some :
    (id r : Text) (q : Queue)
    → lookup id q.receipts ≡ some r
    → take_receipt id q ≡ (record q { receipts = delete id q.receipts }, some r)
unfolding take_receipt
take_receipt-some id r q h = rw (h, take_receipt) refl

take_receipt-none :
    (id : Text) (q : Queue) → lookup id q.receipts ≡ none → take_receipt id q ≡ (q, none)
unfolding take_receipt
take_receipt-none id q h = rw (h, take_receipt) refl

-- The receipts after one is settled.
abbrev pub Settles : Text → Queue → Queue → Type 0
Settles id q q' =
    (j : Text) → lookup j q'.receipts ≡ (if text_eq id j then none else lookup j q.receipts)

module _ {W : Type 0} (api : Api W) where
  settled-parts :
      (what : Text) (q : Queue) (p : W × Option Error)
      → ((settled api what q p).0 ≡ p.0)
        × ((settled api what q p).1 ≡ q)
        × ((settled api what q p).2 ≡ none ↔ p.1 ≡ none)
  unfolding settled
  settled-parts what q (w, none) = (refl, refl, (λ h. refl, λ h. refl))
  settled-parts what q (w, some e) = (refl, refl, (λ h. cc, λ h. cc))

  -- `Ack` of a delivery deletes the message with the receipt recorded for the job and no other,
  -- forgets that receipt alone, and fails exactly when the client does.
  pub ack-deletes :
      (id r : Text) (q : Queue) (w : W)
      → lookup id q.receipts ≡ some r
      → let a = ack api id q w in
        let d = api.delete_message q.queue_url r w in
        (a.0 ≡ d.0) × Settles id q a.1 × (a.2 ≡ none ↔ d.1 ≡ none)
  unfolding ack
  ack-deletes id r q w h = rw (take_receipt-some id r q h) (
      let gone : Queue = record q { receipts = delete id q.receipts } in
      let what = codes "sqsqueue: ack " ++ id ++ codes ": " in
      let parts = settled-parts what gone (api.delete_message q.queue_url r w) in
      (parts.0, λ j. rw parts.1 (lookup-delete id j q.receipts), parts.2))

  -- `Nack` makes the message of the recorded receipt visible at once, and forgets that receipt
  -- alone; it fails exactly when the client does.
  nack-returns :
      (id r : Text) (q : Queue) (w : W)
      → lookup id q.receipts ≡ some r
      → let a = nack api id q w in
        let d = api.change_message_visibility q.queue_url r 0 w in
        (a.0 ≡ d.0) × Settles id q a.1 × (a.2 ≡ none ↔ d.1 ≡ none)
  unfolding nack
  nack-returns id r q w h = rw (take_receipt-some id r q h) (
      let gone : Queue = record q { receipts = delete id q.receipts } in
      let what = codes "sqsqueue: nack " ++ id ++ codes ": " in
      let parts = settled-parts what gone (api.change_message_visibility q.queue_url r 0 w) in
      (parts.0, λ j. rw parts.1 (lookup-delete id j q.receipts), parts.2))

  -- Without a recorded delivery both are no-ops that succeed: no call is made.
  settle_unknown :
      (id : Text) (q : Queue) (w : W)
      → lookup id q.receipts ≡ none
      → (ack api id q w ≡ (w, q, none)) × (nack api id q w ≡ (w, q, none))
  unfolding ack nack
  settle_unknown id q w h = rw (take_receipt-none id q h) (refl, refl)
