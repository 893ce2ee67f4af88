-- ===== src/Vad.antt =====
-- audio/vad/: voice activity detection.
pub mod Machine
pub mod Controller
