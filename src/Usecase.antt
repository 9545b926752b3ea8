-- ===== src/Usecase.antt =====
-- internal/usecase: the two use cases, over the ports of `Ports.antt`.
pub mod Keys
pub mod ProcessJob
pub mod CreateJob
pub mod Ids
