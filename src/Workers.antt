-- ===== src/Workers.antt =====
-- The background workers (src/llmops/workers).
pub mod Scoring
pub mod Tuning
