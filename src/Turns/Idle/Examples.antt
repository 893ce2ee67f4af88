-- ===== src/Turns/Idle/Examples.antt =====
-- processor/turns/idle.go on a short conversation.
use voxigo.Prelude.{here, next, ◌≡◌, refl, Reach, true, [], ◌∷◌, suc}
use voxigo.Prelude.Int.{pos}
use voxigo.Frames.{Frame, Body, bot_started_speaking, bot_stopped_speaking, user_started_speaking}
use voxigo.Turns.Idle.{IdleController, new_idle_controller, process_idle, fire, Step, processes}
use voxigo.Turns.Idle.Quiet.{silence_is_reported}

abbrev frame : Body → Frame
frame b = record { id = 0; body = b }

abbrev fresh : IdleController
fresh = new_idle_controller true (pos 5)

abbrev spoke : IdleController
spoke = process_idle (frame bot_started_speaking) fresh

abbrev waits : IdleController
waits = process_idle (frame bot_stopped_speaking) spoke

abbrev spoke_run : Reach Step fresh spoke
spoke_run = next here (processes (frame bot_started_speaking))

abbrev waits_run : Reach Step fresh waits
waits_run = next spoke_run (processes (frame bot_stopped_speaking))

one_timer : waits.running ≡ (0, pos 5) ∷ []
unfolding new_idle_controller process_idle
one_timer = refl

user_cancels : (process_idle (frame user_started_speaking) waits).running ≡ []
unfolding new_idle_controller process_idle
user_cancels = refl

silence_is_reported_example :
    (waits.running ≡ (0, pos 5) ∷ [])
    × ((fire 0 waits).calls ≡ suc 0)
    × ((fire 0 (fire 0 waits)).calls ≡ suc 0)
unfolding new_idle_controller process_idle
silence_is_reported_example = silence_is_reported true (pos 5) spoke 0 spoke_run refl refl refl refl
