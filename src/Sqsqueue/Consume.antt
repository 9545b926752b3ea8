-- ===== src/Sqsqueue/Consume.antt =====
-- internal/adapters/sqsqueue/sqsqueue.go: the goroutine of `Consume`.
use image_forge.Prelude.{false, Text}
use image_forge.Sqsqueue.Queue.{Delivery}
use image_forge.Forward.{Relay, Inside}

-- It reads the channel of `ConsumeDeliveries`.
unfoldable pub Identifying : Relay Delivery Text → Relay Delivery Text → Type 0
Identifying = Inside (λ d. d.job_id) false
