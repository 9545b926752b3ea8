-- ===== src/Sqsqueue/Recovery.antt =====
-- The receive loop outlives any outage of the queue.
use image_forge.Sqsqueue.Receipts.{latest, lookup-collect}
use image_forge.Sqsqueue.Queue.{Message, Delivery, Queue, decode_meta, collect}
use image_forge.Prelude.{
  ℕ, ◌+◌, ◌≡◌, refl, ap, ◌∙◌, ◌≢◌, inl, inr, true, false, List, [], ◌∷◌, ◌++◌, arith, Text, text_eq,
  lookup, insert, if◌then◌else◌, Bool-cases, length,
}
use image_forge.Sqsqueue.Backoff.{next, reset, attempts}
use image_forge.Sqsqueue.Loop.{
  Turn, cancelled, failing, receiving, stopping, Loop, turn, run, Outage,
}

-- The loop still runs, having handed on nothing and counted every failure.
pub record Survives (n : ℕ) (l l' : Loop) : Type 0 where
  pub still_running : l'.running ≡ true
  pub same_out : l'.out ≡ l.out
  pub same_queue : l'.queue ≡ l.queue
  pub counted : l'.retry.attempt ≡ l.retry.attempt + n

turn-Survives :
    (random : ℕ → ℕ) (l : Loop)
    → l.running ≡ true
    → Survives 1 l (turn (failing false random true) l)
unfolding turn next attempts
turn-Survives random l r =
    rw (r, turn)
      (record { still_running = refl; same_out = refl; same_queue = refl; counted = refl })

Outage-Survives :
    (ts : List Turn) (l : Loop) → Outage ts → l.running ≡ true → Survives (length ts) l (run ts l)
unfolding run
Outage-Survives [] l o r = record {
  still_running = r;
  same_out = refl;
  same_queue = refl;
  counted = omega arith;
}
Outage-Survives (failing false random true ∷ ts) l o r =
    let one = turn-Survives random l r in
    let rest = Outage-Survives ts (turn (failing false random true) l) o one.still_running in
    record {
      still_running = rest.still_running;
      same_out = rest.same_out ∙ one.same_out;
      same_queue = rest.same_queue ∙ one.same_queue;
      counted = omega (arith, rest.counted, one.counted);
    }
Outage-Survives (failing false random false ∷ ts) l o r = absurd o
Outage-Survives (failing true random w ∷ ts) l o r = absurd o
Outage-Survives (cancelled ∷ ts) l o r = absurd o
Outage-Survives (receiving ms ∷ ts) l o r = absurd o
Outage-Survives (stopping ms n ∷ ts) l o r = absurd o

run-append : (ts us : List Turn) (l : Loop) → run (ts ++ us) l ≡ run us (run ts l)
unfolding run
run-append [] us l = refl
run-append (t ∷ ts) us l = run-append ts us (turn t l)

-- The deliveries of messages: one for each message with a body, in order.
abbrev pub delivered : List Message → List Delivery
delivered [] = []
delivered (m ∷ ms) =
    let rest = delivered ms in
    if text_eq m.body []
    then rest
    else record { job_id = m.body; meta = decode_meta m.attributes } ∷ rest

collect-delivered : (ms : List Message) (q : Queue) → (collect ms q).1 ≡ delivered ms
unfolding collect
collect-delivered [] q = refl
collect-delivered (m ∷ ms) q =
    let delivery : Delivery = record { job_id = m.body; meta = decode_meta m.attributes } in
    let kept : Queue = record q { receipts = insert m.body m.receipt_handle q.receipts } in
    elim (Bool-cases (text_eq m.body [])) [
      | inl e ↦ rw (e, collect) (collect-delivered ms q)
      | inr e ↦ rw (e, collect) (ap (λ ds. delivery ∷ ds) (collect-delivered ms kept))
    ]

-- The loop runs, has handed on the deliveries of the messages, and knows for a job the receipt of
-- its last message, or the one that it had where no message is of that job.
pub record Recovers (id : Text) (ms : List Message) (l l' : Loop) : Type 0 where
  pub runs : l'.running ≡ true
  pub hands_on : l'.out ≡ l.out ++ delivered ms
  pub records : lookup id l'.queue.receipts ≡ latest id ms (lookup id l.queue.receipts)
  pub starts_anew : l'.retry.attempt ≡ 0

receiving-Recovers :
    (id : Text) (ms : List Message) (l : Loop)
    → id ≢ []
    → l.running ≡ true
    → Recovers id ms l (turn (receiving ms) l)
unfolding turn reset
receiving-Recovers id ms l given r =
    simp (r, turn)
      (record {
        runs = refl;
        hands_on = ap (λ ds. l.out ++ ds) (collect-delivered ms l.queue);
        records = lookup-collect id ms l.queue given;
        starts_anew = refl;
      })

-- After any outage, however many receives failed, the first receive that succeeds hands on a
-- delivery for each message with a body, in order, records for a job the receipt of its last message
-- or leaves the one that it had, and starts the failure count anew.
pub run-Recovers :
    (id : Text) (ts : List Turn) (ms : List Message) (l : Loop)
    → id ≢ []
    → Outage ts
    → l.running ≡ true
    → Recovers id ms l (run (ts ++ receiving ms ∷ []) l)
unfolding run
run-Recovers id ts ms l given o r =
    let s = Outage-Survives ts l o r in
    let t = receiving-Recovers id ms (run ts l) given s.still_running in
    rw (run-append ts (receiving ms ∷ []) l) (record {
      runs = t.runs;
      hands_on = t.hands_on ∙ ap (λ out. out ++ delivered ms) s.same_out;
      records = t.records ∙ ap (λ (q : Queue). latest id ms (lookup id q.receipts)) s.same_queue;
      starts_anew = t.starts_anew;
    })
