-- ===== src/Examples/Queues.antt =====
-- The two queues and the worker at concrete inputs.
use image_forge.Prelude.{
  ◌/◌, ◌≡◌, refl, true, false, Option, none, some, List, [], ◌∷◌, arith, Text, codes, text_eq,
  lookup, pos,
}
use image_forge.Errors.{job_not_pending, deadline_exceeded, Error, sentinel, ok}
use image_forge.Domain.Job.{Job}
use image_forge.Memqueue.{Queue, refusal, sends, enqueue_ok, Reach, here, then, start}
use image_forge.Memqueue.Order.{IsOrdered, Reach-IsOrdered}
use image_forge.Sqsqueue.Backoff.{new_backoff, delays, Below, delays-Below}
use image_forge.Sqsqueue.Queue.{Message, Api, ack, nack}
use image_forge.Sqsqueue.Queue
use image_forge.Sqsqueue.Receipts.{ack-deletes}
use image_forge.Sqsqueue.Loop.{Turn, failing, receiving, begin, run}
use image_forge.Sqsqueue.Recovery.{Recovers, run-Recovers}
use image_forge.Worker.Pool.{Pool}
use image_forge.Worker.Pool
use image_forge.Worker.Accounting.{Agree}
use image_forge.Memqueue

abbrev first_delivery : Memqueue.Delivery
first_delivery = record { job_id = codes "a1"; meta = [] }

-- One job is accepted by a queue of the default size, and the queue is closed.
abbrev one_sent : Memqueue.History
unfolding Memqueue.new_queue
one_sent = record {
  queue = record { buffered = first_delivery ∷ []; capacity = 1024; closed = false };
  accepted = first_delivery ∷ [];
  taken = [];
}

one_sent_reached : Reach (start (pos 0)) one_sent
unfolding Memqueue.new_queue refusal text_eq
one_sent_reached =
    then here (enqueue_ok (start (pos 0)) first_delivery none _ (sends refl (omega arith)))

Reach-IsOrdered_example : IsOrdered one_sent
Reach-IsOrdered_example = Reach-IsOrdered (pos 0) one_sent_reached

-- Two deliveries of one job, and one of another
abbrev redelivered : List Message
redelivered =
    record { body = codes "a1"; receipt_handle = codes "r1"; attributes = [] }
    ∷ record { body = codes "b2"; receipt_handle = codes "r2"; attributes = [] }
    ∷ record { body = codes "a1"; receipt_handle = codes "r3"; attributes = [] }
    ∷ []

abbrev fresh_queue : Queue.Queue
fresh_queue = Queue.initial (codes "https://sqs/q")

-- A client that logs the receipts it is called with; a visibility change fails.
abbrev logging_api : Api (List Text)
logging_api = record {
  get_queue_url = λ name w. (w, ok name);
  get_queue_attributes = λ url w. (w, ok []);
  send_message = λ url body attrs w. (w, none);
  receive_message = λ url most wait visible w. (w, ok redelivered);
  delete_message = λ url receipt w. (receipt ∷ w, none);
  change_message_visibility = λ url receipt visible w. (w, some (sentinel deadline_exceeded));
}

abbrev holding : Queue.Queue
holding = record fresh_queue { receipts = (codes "a1", codes "r3") ∷ [] }

ack-deletes_example : (Queue.ack logging_api (codes "a1") holding []).0 ≡ codes "r3" ∷ []
unfolding Queue.initial lookup text_eq
ack-deletes_example = (ack-deletes logging_api (codes "a1") (codes "r3") holding [] refl).0

delays-Below_example :
    Below 250000000 30000000000 0 (delays (λ k n. n / 2) (new_backoff 250000000 30000000000) 40)
unfolding new_backoff
delays-Below_example =
    delays-Below (λ k n. n / 2) (λ k n h. omega arith) (new_backoff 250000000 30000000000) 40
      (omega arith) (omega arith)

abbrev failure : Turn
failure = failing false (λ n. 0) true

run-Recovers_example :
    Recovers
      (codes "a1")
      redelivered
      (begin fresh_queue)
      (run (failure ∷ failure ∷ receiving redelivered ∷ []) (begin fresh_queue))
unfolding begin
run-Recovers_example =
    run-Recovers (codes "a1") (failure ∷ failure ∷ []) redelivered (begin fresh_queue) (λ e. cc) tt
      refl

-- A use case that processes one job, and finds the others not pending
abbrev stub_execute : Text → List Text → List Text × Option Job × Option Error
stub_execute id w = (w, none, some (sentinel job_not_pending))

abbrev log_acker : Pool.Acknowledger (List Text)
log_acker = record { ack = λ id w. (id ∷ w, none); nack = λ id w. (w, none) }

initial-Agree : Agree Pool.initial
unfolding Pool.initial
initial-Agree = record { processed_tally = refl; failed_tally = refl; skipped_tally = refl }
