-- ===== src/Transport.antt =====
-- transport/: the two paths by which an output lets frames out.
pub mod FrameQueue
pub mod ClockQueue
