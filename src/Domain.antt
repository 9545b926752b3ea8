-- ===== src/Domain.antt =====
-- internal/domain: the job, its status, and the transformation specification with its validation.
-- No state: values and pure checks.
pub mod Job
pub mod Spec
pub mod Validation
