-- ===== src/Worker/Consume.antt =====
-- internal/worker/pool.go, `consume`: the deliveries that a pool reads, by what its queue offers.
use image_forge.Prelude.{false, Option, none, some, [], Text}
use image_forge.Errors.{Error, Result, ok, err}
use image_forge.Memqueue
use image_forge.Forward.{Relay, relay, Inside}

-- A queue is a ports.DeliveryConsumer or not; each call ends with a channel or an error.
pub data Consumer : Type 0 where
  deliveries : Option Error → Consumer
  ids : Option Error → Consumer

-- The channel that the pool reads is the queue's own, or that of a goroutine, whose start it is.
pub data Opened : Type 0 where
  direct : Opened
  forwarded : Relay Text Memqueue.Delivery → Opened

-- What the goroutine sends for an id.
unfoldable pub bare_delivery : Text → Memqueue.Delivery
bare_delivery id = record { job_id = id; meta = [] }

-- `consume`
unfoldable pub consume : Consumer → Result Opened
consume (deliveries none) = ok direct
consume (deliveries (some e)) = err e
consume (ids none) = ok (forwarded relay)
consume (ids (some e)) = err e

-- A step of that goroutine.
unfoldable pub Forwarding : Relay Text Memqueue.Delivery → Relay Text Memqueue.Delivery → Type 0
Forwarding = Inside bare_delivery false
