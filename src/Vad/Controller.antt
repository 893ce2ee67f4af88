-- ===== src/Vad/Controller.antt =====
-- audio/vad/controller/controller.go: what the controller reports of the detector's state. The
-- reports are listed in the order their decisions are taken under the lock; a time is a number of
-- nanoseconds, and an idle timeout of 0 turns the watch off.
pub mod Reports
mod Examples
use voxigo.Prelude.{
  ℕ, ◌+◌, ◌≡◌, Bool, true, false, not, ◌&&◌, List, [], ◌∷◌, ◌++◌, if◌then◌else◌, ltb, ◌==◌,
}
use voxigo.Vad.Machine.{State, quiet, starting, speaking, stopping}

-- The handlers called, and the warning of a speech that ended for want of audio.
pub data Report : Type 0 where
  speech_started speech_stopped speech_activity : Report

-- `watching` is whether the idle watch runs; `reports` are the reports, the last one first.
pub record Controller : Type 0 where
  pub idle_timeout : ℕ
  pub speaking : Bool
  pub last_audio_at : ℕ
  pub watching : Bool
  pub reports : List Report

unfoldable pub new_controller : ℕ → Controller
new_controller idle = record {
  idle_timeout = idle;
  speaking = false;
  last_audio_at = 0;
  watching = false;
  reports = [];
}

abbrev pub is_speaking : State → Bool
is_speaking speaking = true
is_speaking _ = false

abbrev pub is_quiet : State → Bool
is_quiet quiet = true
is_quiet _ = false

unfoldable pub report : Report → Controller → Controller
report r c = record c { reports = r ∷ c.reports }

-- The decision that `handleAudio` takes under the lock, and its report.
unfoldable pub decide : State → Controller → Controller
unfolding report
decide s c =
    if is_speaking s && not c.speaking
    then report speech_started (record c { speaking = true })
    else if is_quiet s && c.speaking
    then report speech_stopped (record c { speaking = false })
    else c

-- `handleAudio` from the detector's state on.
unfoldable pub handle_audio : ℕ → State → Controller → Controller
unfolding decide report
handle_audio now s c =
    let decided = decide s (record c { last_audio_at = now }) in
    if decided.speaking then report speech_activity decided else decided

-- `startIdleWatch`, which stops the watch that runs.
unfoldable pub start_idle_watch : ℕ → Controller → Controller
start_idle_watch now c =
    if c.idle_timeout == 0 then c else record c { watching = true; last_audio_at = now }

unfoldable pub stop_idle_watch : Controller → Controller
stop_idle_watch c = record c { watching = false }

-- A round of `idleWatch`: before the deadline it goes on waiting.
unfoldable pub idle_round : ℕ → Controller → Controller
unfolding report
idle_round now c =
    if ltb now (c.last_audio_at + c.idle_timeout)
    then c
    else if c.speaking
    then report speech_stopped (record c { speaking = false })
    else c

-- A chunk of audio, a round of the watch while it runs, the start and the end of the session.
pub data Step (c : Controller) : Controller → Type 0 where
  hears : (now : ℕ) (s : State) → Step c (handle_audio now s c)
  watches : (now : ℕ) → c.watching ≡ true → Step c (idle_round now c)
  starts : (now : ℕ) → Step c (start_idle_watch now c)
  stops : Step c (stop_idle_watch c)
