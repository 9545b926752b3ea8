-- ===== src/Sqsqueue/Loop.antt =====
-- The receive loop of `ConsumeDeliveries` (internal/adapters/sqsqueue/sqsqueue.go), a turn for each
-- round. What the environment decides in a turn is its `Turn`: the receive's result, whether the
-- context is done before it or after its failure, the draw, whether the wait ran its time, and how
-- many deliveries the consumer takes before its context is done.
use image_forge.Prelude.{ℕ, Bool, true, false, List, [], ◌∷◌, ◌++◌, if◌then◌else◌, take}
use image_forge.Sqsqueue.Backoff.{Backoff, new_backoff, next, reset, attempts}
use image_forge.Sqsqueue.Queue.{Message, Delivery, Queue, collect}

pub data Turn : Type 0 where
  -- `ctx.Err() != nil` at the top
  cancelled : Turn
  -- the receive failed: whether the context is done by then, the draw, whether the wait completed
  failing : Bool → (ℕ → ℕ) → Bool → Turn
  -- the receive returned messages, all of whose deliveries are taken, or only the first few
  receiving : List Message → Turn
  stopping : List Message → ℕ → Turn

pub record Loop : Type 0 where
  pub queue : Queue
  pub retry : Backoff
  pub running : Bool
  -- what was handed on, the oldest first
  pub out : List Delivery
  -- the failure count and the delay given to `onReceiveError`, the latest first
  pub reported : List (ℕ × ℕ)

unfoldable pub begin : Queue → Loop
begin q = record {
  queue = q;
  retry = new_backoff q.backoff_base q.backoff_max;
  running = true;
  out = [];
  reported = [];
}

turned : Turn → Loop → Loop
turned cancelled l = record l { running = false }
turned (failing done random waited) l =
    if done
    then record l { running = false }
    else let (retry, delay) = next random l.retry in
      record l { retry = retry; running = waited; reported = (attempts retry, delay) ∷ l.reported }
turned (receiving msgs) l =
    let (queue, deliveries) = collect msgs l.queue in
    record l { queue = queue; retry = reset l.retry; out = l.out ++ deliveries }
turned (stopping msgs n) l =
    let (queue, deliveries) = collect msgs l.queue in
    record l {
      queue = queue;
      retry = reset l.retry;
      running = false;
      out = l.out ++ take n deliveries;
    }

-- A turn of a loop that has returned does nothing.
unfoldable pub turn : Turn → Loop → Loop
unfolding turned
turn t l = if l.running then turned t l else l

unfoldable pub run : List Turn → Loop → Loop
run [] l = l
run (t ∷ ts) l = run ts (turn t l)

-- Failures that the loop may wait out: the context stays live.
abbrev pub Outage : List Turn → Type 0
Outage [] = Unit {0}
Outage (failing false random true ∷ ts) = Outage ts
Outage (_ ∷ ts) = ⊥
