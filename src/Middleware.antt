-- ===== src/Middleware.antt =====
-- The request middleware (src/llmops/api/middleware) and the settings that it reads.
pub mod Strings
pub mod Auth
pub mod RateLimit
