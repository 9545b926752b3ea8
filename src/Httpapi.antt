-- ===== src/Httpapi.antt =====
-- internal/adapters/httpapi: the parts of the HTTP layer with a state or a decision of their own.
pub mod RateLimit
pub mod Budget
pub mod Answers
pub mod Media
pub mod Auth
pub mod Upload
pub mod Serve
pub mod Settings
pub mod Writer
pub mod Middleware
pub mod Service
pub mod Finished
