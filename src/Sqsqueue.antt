-- ===== src/Sqsqueue.antt =====
-- internal/adapters/sqsqueue: the SQS queue with its receipts, and the backoff of its receive loop.
pub mod Consume
pub mod Backoff
pub mod Queue
pub mod Open
pub mod Receipts
pub mod Loop
pub mod Recovery
