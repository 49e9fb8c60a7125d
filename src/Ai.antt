-- ===== src/Ai.antt =====
-- modules/ai: the knowledge that is stored as vectors, and the questions that it answers.
mod Tests
pub mod Store
pub mod Ingestion
pub mod Rag
pub mod FakeModels
