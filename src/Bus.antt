-- ===== src/Bus.antt =====
-- bus/: the message bus between workers.
pub mod Queue
