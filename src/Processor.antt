-- ===== src/Processor.antt =====
-- processor/: what every processor is built on, and some processors.
pub mod Queue
pub mod Dtmf
pub mod Event
