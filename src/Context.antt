-- ===== src/Context.antt =====
-- utils/context/: how the conversation context is written as a synthesis is spoken.
pub mod Sequencer
pub mod Matcher
pub mod Summary
