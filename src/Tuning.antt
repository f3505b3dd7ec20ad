-- ===== src/Tuning.antt =====
-- The tuning engine (src/llmops/core/tuning).
pub mod Base
pub mod AbTest
pub mod Space
pub mod Random
pub mod Results
pub mod Rows
pub mod Experiment
pub mod Repository
