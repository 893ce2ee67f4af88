-- ===== src/Turns/Idle.antt =====
-- processor/turns/idle.go: the user-idle controller. A timer is its number; `calls` are the times
-- that the callback was run.
pub mod Quiet
mod Examples
use voxigo.Prelude.{
  ℕ, zero, suc, ◌+◌, ◌-◌, Bool, true, false, not, ◌&&◌, ◌||◌, Option, none, some, List, [], ◌∷◌,
  if◌then◌else◌, length, keep_if, exists_in, ◌==◌,
}
use voxigo.Prelude.Int.{ℤ, pos, negsuc}
use voxigo.Turns.Timers.{without, is_running, stopped}
use voxigo.Frames.{
  Frame, Body, bot_started_speaking, bot_stopped_speaking, user_started_speaking,
  user_stopped_speaking, function_calls_started, function_call_result, function_call_cancel,
  user_idle_timeout_update,
}

-- `running` are the timers whose callback has neither run nor been stopped, each with the duration
-- it was armed for; `timer_cancel` is the timer that the closure of that name stops.
pub record IdleController : Type 0 where
  pub has_callback : Bool
  pub timeout : ℤ
  pub waiting_for_user : Bool
  pub user_turn_in_progress : Bool
  pub function_calls : ℕ
  pub timer_cancel : Option (ℕ × ℤ)
  pub running : List (ℕ × ℤ)
  pub next_timer : ℕ
  pub calls : ℕ

unfoldable pub new_idle_controller : Bool → ℤ → IdleController
new_idle_controller callback t = record {
  has_callback = callback;
  timeout = t;
  waiting_for_user = false;
  user_turn_in_progress = false;
  function_calls = 0;
  timer_cancel = none;
  running = [];
  next_timer = 0;
  calls = 0;
}

abbrev pub is_positive : ℤ → Bool
is_positive (pos zero) = false
is_positive (pos (suc n)) = true
is_positive (negsuc n) = false

unfoldable pub cancel_timer : IdleController → IdleController
cancel_timer c = record c { timer_cancel = none; running = stopped c.timer_cancel c.running }

unfoldable pub start_timer : IdleController → IdleController
unfolding cancel_timer
start_timer c =
    if not (is_positive c.timeout) || not c.has_callback
    then c
    else let c' = cancel_timer c in
      record c' {
        timer_cancel = some (c'.next_timer, c'.timeout);
        running = (c'.next_timer, c'.timeout) ∷ c'.running;
        next_timer = suc c'.next_timer;
      }

-- The callback of a timer, up to the unlock, and the user's callback.
unfoldable pub fire : ℕ → IdleController → IdleController
fire n c =
    if is_running n c.running
    then record c { timer_cancel = none; running = without n c.running; calls = suc c.calls }
    else c

unfoldable pub process_body : Body → IdleController → IdleController
unfolding cancel_timer start_timer
process_body (user_idle_timeout_update t) c =
    if not (is_positive t)
    then cancel_timer (record c { timeout = t })
    else if c.waiting_for_user
    then start_timer (record c { timeout = t })
    else record c { timeout = t }
process_body bot_stopped_speaking c =
    if not c.user_turn_in_progress && c.function_calls == 0
    then start_timer (record c { waiting_for_user = true })
    else c
process_body bot_started_speaking c = cancel_timer (record c { waiting_for_user = false })
process_body user_started_speaking c =
    cancel_timer (record c { waiting_for_user = false; user_turn_in_progress = true })
process_body user_stopped_speaking c = record c { user_turn_in_progress = false }
process_body (function_calls_started ids) c =
    cancel_timer
      (record c { waiting_for_user = false; function_calls = c.function_calls + length ids })
process_body (function_call_result id) c = record c { function_calls = c.function_calls - 1 }
process_body (function_call_cancel id) c = record c { function_calls = c.function_calls - 1 }
process_body _ c = c

unfoldable pub process_idle : Frame → IdleController → IdleController
unfolding process_body
process_idle f c = process_body f.body c

-- `Stop`, which `Cleanup` calls.
unfoldable pub stop_idle : IdleController → IdleController
unfolding cancel_timer
stop_idle c = cancel_timer c

-- What happens under the lock: a frame, a timer that goes off, the end of the session.
pub data Step (c : IdleController) : IdleController → Type 0 where
  processes : (f : Frame) → Step c (process_idle f c)
  fires : (n : ℕ) → Step c (fire n c)
  ends : Step c (stop_idle c)
