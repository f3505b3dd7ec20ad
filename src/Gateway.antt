-- ===== src/Gateway.antt =====
-- The LLM gateway (src/llmops/core/gateway).
pub mod Schemas
pub mod Registry
pub mod Providers
pub mod Router
pub mod Cost
pub mod Langfuse
