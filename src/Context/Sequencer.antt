-- ===== src/Context/Sequencer.antt =====
-- utils/context/sequencer.go: the queue of spoken and skipped slots of a synthesis.
pub mod Types
pub mod Flush
pub mod Words
pub mod Register
pub mod Order
pub mod Stale
pub mod Fuel
mod Examples
