-- ===== src/Agent.antt =====
-- app/agent: the data of a turn and the engine that handles it.
pub mod Models
pub mod Phrases
pub mod Matches
pub mod Answers
pub mod Dialogue
pub mod Deterministic
pub mod Engine
