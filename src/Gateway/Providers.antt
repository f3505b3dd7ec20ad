-- ===== src/Gateway/Providers.antt =====
-- The translation of the unified request to the two vendors' formats, and back.
pub mod Anthropic
pub mod Gemini
pub mod Messages
