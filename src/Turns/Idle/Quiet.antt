-- ===== src/Turns/Idle/Quiet.antt =====
-- processor/turns/idle.go: when the idle timer runs.
use voxigo.Prelude.{
  Reach, Reach-keeps, ℕ, suc, ◌≡◌, ◌⊎◌, Bool, true, false, Option, none, some, [], ◌∷◌, arith,
}
use voxigo.Prelude.Int.{ℤ}
use voxigo.Frames.{
  Body, bot_started_speaking, bot_stopped_speaking, user_started_speaking, user_stopped_speaking,
  function_calls_started, function_call_result, function_call_cancel, user_idle_timeout_update,
}
use voxigo.Turns.Timers.{only_timer}
use voxigo.Turns.Idle.{
  IdleController, new_idle_controller, is_positive, cancel_timer, start_timer, fire, process_body,
  process_idle, stop_idle, Step, processes, fires, ends,
}

-- A timer runs only while the conversation waits for the user, in which no user turn and no tool
-- call is open.
abbrev armed : Option (ℕ × ℤ) → Bool
armed none = false
armed (some t) = true

-- The timer that can be stopped runs for the timeout in force.
abbrev Waits : Option (ℕ × ℤ) → ℤ → Type 0
Waits none d = Unit
Waits (some t) d = t.1 ≡ d

pub record IsQuiet (c : IdleController) : Type 0 where
  pub only : c.running ≡ only_timer c.timer_cancel
  pub in_force : Waits c.timer_cancel c.timeout
  pub waits : armed c.timer_cancel ≡ true → c.waiting_for_user ≡ true
  pub callback : armed c.timer_cancel ≡ true → c.has_callback ≡ true
  pub positive : armed c.timer_cancel ≡ true → is_positive c.timeout ≡ true
  pub no_turn : c.waiting_for_user ≡ true → c.user_turn_in_progress ≡ false
  pub no_calls : c.waiting_for_user ≡ true → c.function_calls ≡ 0

process_body-IsQuiet : (b : Body) (c : IdleController) → IsQuiet c → IsQuiet (process_body b c)
unfolding process_body cancel_timer start_timer
process_body-IsQuiet (user_idle_timeout_update t) c q = ground arith
process_body-IsQuiet bot_stopped_speaking c q = ground arith
process_body-IsQuiet bot_started_speaking c q = ground arith
process_body-IsQuiet user_started_speaking c q = ground arith
process_body-IsQuiet user_stopped_speaking c q = ground arith
process_body-IsQuiet (function_calls_started ids) c q = ground arith
process_body-IsQuiet (function_call_result id) c q = ground arith
process_body-IsQuiet (function_call_cancel id) c q = ground arith
process_body-IsQuiet _ c q = q

fire-IsQuiet : (n : ℕ) (c : IdleController) → IsQuiet c → IsQuiet (fire n c)
unfolding fire
fire-IsQuiet n c q = ground arith

stop_idle-IsQuiet : (c : IdleController) → IsQuiet c → IsQuiet (stop_idle c)
unfolding stop_idle cancel_timer
stop_idle-IsQuiet c q = ground arith

Step-IsQuiet : (c d : IdleController) → Step c d → IsQuiet c → IsQuiet d
unfolding process_idle
Step-IsQuiet c d (processes f) q = process_body-IsQuiet f.body c q
Step-IsQuiet c d (fires n) q = fire-IsQuiet n c q
Step-IsQuiet c d ends q = stop_idle-IsQuiet c q

reached-IsQuiet :
    (callback : Bool) (t : ℤ) {c : IdleController}
    → Reach Step (new_idle_controller callback t) c
    → IsQuiet c
unfolding new_idle_controller
reached-IsQuiet callback t run = Reach-keeps IsQuiet Step-IsQuiet (ground arith) run

-- What may have happened in a step: nothing was called, or the callback once, in a quiet moment.
abbrev pub CalledInQuiet : IdleController → IdleController → Type 0
CalledInQuiet c d =
    (d.calls ≡ c.calls)
    ⊎ ((d.calls ≡ suc c.calls)
        × (c.waiting_for_user ≡ true)
        × (c.user_turn_in_progress ≡ false)
        × (c.function_calls ≡ 0)
        × (is_positive c.timeout ≡ true)
        × (d.running ≡ []))

-- When the bot stops speaking outside a user turn and with no tool call pending, and idle
-- detection is on, exactly one timer runs, for the timeout in force, whatever came before; it
-- calls the callback once, and when it goes off again nothing is called.
pub silence_is_reported :
    (callback : Bool) (t : ℤ) (c : IdleController) (i : ℕ)
    → Reach Step (new_idle_controller callback t) c
    → c.has_callback ≡ true
    → is_positive c.timeout ≡ true
    → c.user_turn_in_progress ≡ false
    → c.function_calls ≡ 0
    → let after = process_idle (record { id = i; body = bot_stopped_speaking }) c in
      let n = c.next_timer in
      (after.running ≡ (n, c.timeout) ∷ [])
      × ((fire n after).calls ≡ suc c.calls)
      × ((fire n (fire n after)).calls ≡ suc c.calls)
unfolding process_idle process_body start_timer cancel_timer fire
silence_is_reported callback t c i run has positive no_turn no_calls =
    let q = reached-IsQuiet callback t run in ground arith
