-- ===== src/Telemetry.antt =====
-- internal/telemetry: where spans are sent and what the process installs for it, the log records
-- with their identifiers, and the trace that travels with a message.
pub mod Endpoint
pub mod Setup
pub mod Logging
pub mod Carrier
