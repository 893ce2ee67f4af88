-- ===== src/Turns.antt =====
-- processor/turns: when the user's turn starts and ends, and when the user is not heard.
pub mod Timers
pub mod Mute
pub mod Controller
pub mod Starts
pub mod Stops
pub mod Idle
