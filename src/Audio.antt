-- ===== src/Audio.antt =====
-- audio/: codecs of the telephony transports.
pub mod Companding
