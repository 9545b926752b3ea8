-- ===== src/Worker.antt =====
-- internal/worker/pool.go: what a worker does with one delivery, and the counters of the pool.
pub mod Pool
pub mod Run
pub mod Accounting
pub mod Consume
