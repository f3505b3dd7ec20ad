-- ===== src/Api.antt =====
-- The HTTP endpoints (src/llmops/api/v1).
pub mod Status
pub mod Answers
pub mod Gateway
pub mod Prompts
pub mod Tuning
pub mod Scoring
