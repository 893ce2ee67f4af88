-- ===== src/Vad/Controller/Examples.antt =====
-- audio/vad/controller/controller.go on a microphone that is muted while the user speaks.
use voxigo.Prelude.{◌+◌, ◌≡◌, refl, true, false, [], ◌∷◌, arith}
use voxigo.Vad.Machine.{speaking}
use voxigo.Vad.Controller.{
  speech_started, speech_stopped, speech_activity, new_controller, report, decide, handle_audio,
  start_idle_watch, idle_round,
}
use voxigo.Vad.Controller.Reports.{idle_ends_speech}

muted :
    (idle_round 30 (handle_audio 10 speaking (start_idle_watch 5 (new_controller 20)))).reports
    ≡ speech_stopped ∷ speech_activity ∷ speech_started ∷ []
unfolding idle_round handle_audio decide report start_idle_watch new_controller
muted = refl

idle_ends_speech_example :
    ((idle_round (10 + 20) (handle_audio 10 speaking (new_controller 20))).speaking ≡ false)
    × ((handle_audio 10 speaking (new_controller 20)).speaking ≡ true
        → (idle_round (10 + 20) (handle_audio 10 speaking (new_controller 20))).reports
          ≡ speech_stopped ∷ (handle_audio 10 speaking (new_controller 20)).reports)
unfolding new_controller
idle_ends_speech_example = idle_ends_speech 10 20 speaking (new_controller 20) (omega arith)
