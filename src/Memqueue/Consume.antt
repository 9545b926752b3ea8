-- ===== src/Memqueue/Consume.antt =====
-- internal/adapters/memqueue/memqueue.go: the goroutines of `ConsumeDeliveries` and `Consume`.
use image_forge.Prelude.{true, false, Text}
use image_forge.Memqueue.{Delivery}
use image_forge.Forward.{Relay, Inside}

-- `ConsumeDeliveries`: it selects on its context where it receives, too.
unfoldable pub Delivering : Relay Delivery Delivery → Relay Delivery Delivery → Type 0
Delivering = Inside (λ d. d) true

-- `Consume`, which reads the channel of `ConsumeDeliveries`.
unfoldable pub Identifying : Relay Delivery Text → Relay Delivery Text → Type 0
Identifying = Inside (λ d. d.job_id) false
