-- ===== src/Turns/Stops.antt =====
-- processor/turns/stop.go: the stop strategies, as objects of the turn controller. A duration is a
-- number of nanoseconds; the seconds of a frame, which are a floating-point number, are converted
-- where the frame is built. The warning about the stop window is a log line and left out.
pub mod Scripts
pub mod SpeechTimeout
pub mod TurnAnalyzer
pub mod External
pub mod Deferred
mod Examples
