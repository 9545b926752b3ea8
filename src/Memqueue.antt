-- ===== src/Memqueue.antt =====
-- internal/adapters/memqueue/memqueue.go. The channel is the list of what it buffers, the oldest
-- first. A call that blocks makes no step until it can go on; where two cases of a `select` are
-- ready either is a step.
pub mod Order
pub mod Consume
use image_forge.Prelude.{
  ℕ, ◌<◌, ◌≡◌, Bool, true, false, Option, none, some, List, [], ◌∷◌, ◌++◌, Text, codes, text_eq,
  if◌then◌else◌, length, ℤ, pos, pos_part, leb_ℤ,
}
use image_forge.Errors.{queue_closed, Error, new, sentinel, wrap}

-- ports.Delivery; no metadata is the nil map.
pub record Delivery : Type 0 where
  pub job_id : Text
  pub meta : List (Text × Text)

pub record Queue : Type 0 where
  pub buffered : List Delivery
  pub capacity : ℕ
  pub closed : Bool

abbrev pub default_buffer : ℕ
default_buffer = 1024

-- `New`: a buffer that is not positive selects the default.
unfoldable pub new_queue : ℤ → Queue
new_queue buffer = record {
  buffered = [];
  capacity = if leb_ℤ buffer (pos 0) then default_buffer else pos_part buffer;
  closed = false;
}

-- `Len`, and the figure of `Depth`.
unfoldable pub depth : Queue → ℕ
depth q = length q.buffered

-- What `Enqueue` does before it waits on the channel: the error that it returns at once.
unfoldable pub refusal : Text → Queue → Option Error
refusal id q =
    if text_eq id []
    then some (new (codes "memqueue: empty job id"))
    else if q.closed
    then some (wrap (codes "memqueue: enqueue " ++ id ++ codes ": ") (sentinel queue_closed) [])
    else none

unfoldable pub gave_up : Text → Error → Error
gave_up id e = wrap (codes "memqueue: enqueue " ++ id ++ codes ": ") e []

-- `Enqueue` under a context whose `Err()` is `ctx_err`: the queue after it and what it returns.
pub data Enqueues (d : Delivery) (ctx_err : Option Error) (q : Queue)
    : Queue → Option Error → Type 0 where
  refuses : (e : Error) → refusal d.job_id q ≡ some e → Enqueues d ctx_err q q (some e)
  sends :
      refusal d.job_id q ≡ none
      → length q.buffered < q.capacity
      → Enqueues d ctx_err q (record q { buffered = q.buffered ++ d ∷ [] }) none
  gives_up :
      (e : Error)
      → refusal d.job_id q ≡ none
      → ctx_err ≡ some e
      → Enqueues d ctx_err q q (some (gave_up d.job_id e))

-- `Close`, which may be called again.
unfoldable pub close : Queue → Queue
close q = record q { closed = true }

-- A consumer takes the oldest delivery, and hands it on, or drops it when its context is done.
pub data Takes (q : Queue) : Delivery → Queue → Type 0 where
  takes :
      (d : Delivery) (rest : List Delivery)
      → q.buffered ≡ d ∷ rest
      → Takes q d (record q { buffered = rest })

-- The queue with what `Enqueue` has accepted and what consumers have taken, the oldest first.
pub record History : Type 0 where
  pub queue : Queue
  pub accepted : List Delivery
  pub taken : List Delivery

pub data Step : History → History → Type 0 where
  enqueue_ok :
      (h : History) (d : Delivery) (c : Option Error) (q : Queue)
      → Enqueues d c h.queue q none
      → Step h (record h { queue = q; accepted = h.accepted ++ d ∷ [] })
  enqueue_err :
      (h : History) (d : Delivery) (c : Option Error) (q : Queue) (e : Error)
      → Enqueues d c h.queue q (some e)
      → Step h (record h { queue = q })
  taking :
      (h : History) (d : Delivery) (q : Queue)
      → Takes h.queue d q
      → Step h (record h { queue = q; taken = h.taken ++ d ∷ [] })
  closing : (h : History) → Step h (record h { queue = close h.queue })

pub data Reach (h : History) : History → Type 0 where
  here : Reach h h
  then : {g k : History} → Reach h g → Step g k → Reach h k

abbrev pub start : ℤ → History
start buffer = record { queue = new_queue buffer; accepted = []; taken = [] }
