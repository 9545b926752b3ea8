-- ===== src/Examples.antt =====
-- The theorems at concrete inputs, and tests of the definitions.
mod Jobs
mod Queues
mod Settings
mod Texts
mod Backends
mod Images
mod Watermarks
mod Requests
mod Tables
mod Files
mod Pools
mod Service
mod Tracing
mod Metrics
mod Processes
mod Replies
mod Finished
