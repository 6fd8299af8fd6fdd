-- ===== src/AiContext.antt =====
-- app/ai_context: what a language model says of a news item or a disclosure, in a fixed shape.
pub mod Schema
pub mod Extractor
pub mod Persistence
