-- ===== src/Prompts.antt =====
-- Prompt management (src/llmops/core/prompts, db/models/prompt.py, db/repositories/prompt.py).
pub mod Base
pub mod Renderer
pub mod Manager
pub mod Store
pub mod Repository
