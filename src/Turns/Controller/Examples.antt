-- ===== src/Turns/Controller/Examples.antt =====
-- processor/turns/controller.go with a start on voice activity and a stop on silence.
use voxigo.Prelude.{here, next, ℕ, ◌≡◌, refl, true, false, none, some, [], ◌∷◌}
use voxigo.Frames.{Frame, Body, vad_user_started_speaking, vad_user_stopped_speaking}
use voxigo.Turns.Controller.{
  start_at, stop_at, started, inference_triggered, stopped, Script, done, trigger, Methods,
  continue, stop, started_hook, stopped_hook, inference, stop_timeout, Controller, new_controller,
  note_speech, process, fire, rearm_watchdog, call_hook, notify_turn_started, notify_turn_stopped,
  on_start_triggered, on_inference_triggered, on_stop_triggered, on_trigger, run_script, chain,
  processes, during,
}
use voxigo.Turns.Controller.Guards.{turn_after, closings, turns_alternate, speaking_holds_turn}
use voxigo.Turns.Controller.Watchdog.{stuck_turn_ends}

data Sample : Type 0 where
  vad_start vad_stop : Sample

abbrev starts_on : Body → Sample → Script Sample
starts_on (vad_user_started_speaking w) s = trigger s (started true true) (λ t. done t stop)
starts_on _ s = done s continue

abbrev stops_on : Body → Sample → Script Sample
stops_on (vad_user_stopped_speaking w ts) s =
    trigger s inference_triggered (λ t. trigger t (stopped true) (λ u. done u continue))
stops_on _ s = done s continue

abbrev decide : Frame → Sample → Script Sample
decide f vad_start = starts_on f.body vad_start
decide f vad_stop = stops_on f.body vad_stop

abbrev sample_methods : Methods Sample
sample_methods = record { process = decide; turn_started = λ s. s; turn_stopped = λ s. s }

abbrev voice : Frame
voice = record { id = 1; body = vad_user_started_speaking 200 }

abbrev silence : Frame
silence = record { id = 2; body = vad_user_stopped_speaking 200 none }

abbrev sample_controller : Controller Sample
unfolding new_controller
sample_controller = new_controller (vad_start ∷ []) (vad_stop ∷ [])

-- A controller that nothing but the watchdog closes a turn of.
abbrev start_only : Controller Sample
unfolding new_controller
start_only = new_controller (vad_start ∷ []) []

one_turn :
    (process sample_methods silence (process sample_methods voice sample_controller)).hooks
    ≡ stopped_hook (some (stop_at 0)) true
      ∷ inference (stop_at 0)
      ∷ started_hook (start_at 0) true true
      ∷ []
unfolding process chain run_script on_trigger on_start_triggered on_inference_triggered
    on_stop_triggered note_speech rearm_watchdog call_hook notify_turn_started notify_turn_stopped
    new_controller
one_turn = refl

turns_alternate_example :
    turn_after
      (process sample_methods silence
        (process sample_methods voice (new_controller (vad_start ∷ []) (vad_stop ∷ [])))).hooks
    ≡ some
        (process sample_methods silence (
          process sample_methods voice (new_controller (vad_start ∷ []) (vad_stop ∷ [])))).user_turn
turns_alternate_example =
    turns_alternate sample_methods (vad_start ∷ []) (vad_stop ∷ [])
      (next (next here (during (processes voice))) (during (processes silence)))

speaking_holds_turn_example :
    (closings (process sample_methods voice sample_controller).hooks ≡ closings [])
    × (false ≡ true → (process sample_methods voice sample_controller).user_turn ≡ true)
unfolding note_speech rearm_watchdog new_controller
speaking_holds_turn_example = speaking_holds_turn sample_methods voice sample_controller refl

abbrev stuck : Controller Sample
stuck =
    process sample_methods silence
      (process sample_methods voice (new_controller (vad_start ∷ []) []))

stuck_turn_ends_example :
    (n : ℕ) × (stuck.running ≡ n ∷ [])
    × ((fire sample_methods n stuck).user_turn ≡ false)
    × ((fire sample_methods n stuck).hooks ≡ stopped_hook none true ∷ stop_timeout ∷ stuck.hooks)
unfolding process chain run_script on_trigger on_start_triggered note_speech rearm_watchdog
    call_hook notify_turn_started new_controller
stuck_turn_ends_example =
    stuck_turn_ends sample_methods (vad_start ∷ []) []
      (next (next here (processes voice)) (processes silence)) refl refl
