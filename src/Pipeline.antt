-- ===== src/Pipeline.antt =====
-- pipeline/: processors that hold other processors.
pub mod Strategy
pub mod Switcher
pub mod Parallel
