-- ===== src/Scoring.antt =====
-- The scoring engine (src/llmops/core/scoring).
pub mod Base
pub mod Rules
pub mod Judge
pub mod Pipeline
pub mod Embedding
pub mod Composite
pub mod Rows
pub mod Repository
