-- ===== src/Turns/Stops/Examples.antt =====
-- processor/turns/stop.go on short turns. The model of these turns judges every turn complete.
use voxigo.Prelude.{
  here, next, ◌≡◌, refl, Reach, ℕ, ◌+◌, ◌≤◌, true, false, none, some, List, [], ◌∷◌, bytes, arith,
  ◌&&◌, not, if◌then◌else◌,
}
use voxigo.Frames.{vad_user_stopped_speaking, transcription}
use voxigo.Turns.Controller.{Trigger, inference_triggered, stopped}
use voxigo.Turns.Stops.SpeechTimeout
use voxigo.Turns.Stops.SpeechTimeout.Floor
use voxigo.Turns.Stops.SpeechTimeout.Floor.{Session}
use voxigo.Turns.Stops.SpeechTimeout.Ending.{user_then_stt, stt_then_user, silence_ends_turn}
use voxigo.Turns.Stops.TurnAnalyzer
use voxigo.Turns.Stops.TurnAnalyzer.{Analyzing, TurnAnalyzerStop, new_turn_analyzer_stop}
use voxigo.Turns.Stops.TurnAnalyzer.Agreement
use voxigo.Turns.Stops.TurnAnalyzer.Agreement.{verdict_ends_turn}
use voxigo.Turns.Stops.TurnAnalyzer.Judged
use voxigo.Turns.Stops.External
use voxigo.Turns.Stops.External.{ExternalStop, new_external_stop, set_up}
use voxigo.Turns.Stops.External.Retry
use voxigo.Turns.Stops.External.Retry.{open_turn_is_retried}

abbrev ends : List Trigger
ends = inference_triggered ∷ stopped true ∷ []

-- A speech-timeout strategy that has heard a transcript and then the VAD stop.
abbrev hello : SpeechTimeout.Event
hello = SpeechTimeout.frame (transcription (bytes "hello") false)

abbrev falls_silent : SpeechTimeout.Event
falls_silent = SpeechTimeout.frame (vad_user_stopped_speaking 200 none)

abbrev opened : Session
opened = Floor.fresh 600 none

abbrev heard : Session
heard = record { strategy = (Floor.happens hello true opened.strategy).0; quiet_at = 0 }

abbrev silent : Session
silent = record { strategy = (Floor.happens falls_silent true heard.strategy).0; quiet_at = 0 }

abbrev waited : Session
waited = record silent { strategy = record silent.strategy { now = 0 + 600 } }

waited_run : Reach Floor.Step opened waited
unfolding SpeechTimeout.act SpeechTimeout.new_speech_timeout_stop
waited_run =
    next (next (next here (Floor.acts hello true)) (Floor.acts falls_silent true))
      (Floor.passes 600)

speech_timeout_ends : (Floor.happens (SpeechTimeout.user_timer 1) true waited.strategy).1 ≡ ends
unfolding SpeechTimeout.new_speech_timeout_stop SpeechTimeout.act
speech_timeout_ends = refl

silence_ends_turn_example :
    let signals = inference_triggered ∷ stopped waited.strategy.announces ∷ [] in
    (user_then_stt true waited.strategy ≡ signals) × (stt_then_user true waited.strategy ≡ signals)
unfolding SpeechTimeout.act SpeechTimeout.new_speech_timeout_stop
silence_ends_turn_example =
    silence_ends_turn 600 none true waited waited_run refl refl (λ w. refl) refl (omega arith) tt

-- A model whose state is the number of analyses.
abbrev agreeing : Analyzing
agreeing = record {
  Analyzer = ℕ;
  update_vad_start_secs = λ secs a. a;
  append_audio = λ audio speech a. (a, false);
  analyze_end_of_turn = λ a. (a + 1, record { complete = true; failed = false; took = 30 });
  clear = λ a. 0;
}

abbrev watching : TurnAnalyzerStop agreeing
watching = new_turn_analyzer_stop agreeing 0 none

abbrev pauses : TurnAnalyzer.Event
pauses = TurnAnalyzer.frame (vad_user_stopped_speaking 200 (some 900))

abbrev net : TurnAnalyzer.Event
net = TurnAnalyzer.timeout 0

abbrev says : TurnAnalyzer.Event
says = TurnAnalyzer.frame (transcription (bytes "done") false)

verdict_ends_turn_example :
    (Agreement.signals agreeing pauses watching ≡ [])
    × (Agreement.signals agreeing
          (TurnAnalyzer.frame (transcription (bytes "done") true))
          (Agreement.after agreeing pauses watching)
        ≡ Agreement.ends_turn agreeing watching)
    × (Agreement.signals agreeing says (Agreement.after agreeing pauses watching) ≡ [])
    × (Agreement.signals agreeing net (
          Agreement.later agreeing 1000
            (Agreement.after agreeing says (Agreement.after agreeing pauses watching)))
        ≡ Agreement.ends_turn agreeing watching)
    × (Agreement.signals agreeing net
          (Agreement.later agreeing 1000 (Agreement.after agreeing pauses watching))
        ≡ [])
    × (Agreement.signals agreeing says (
          Agreement.after agreeing net
            (Agreement.later agreeing 1000 (Agreement.after agreeing pauses watching)))
        ≡ Agreement.ends_turn agreeing watching)
unfolding new_turn_analyzer_stop
verdict_ends_turn_example =
    verdict_ends_turn agreeing 0 none watching 200 (some 900) (bytes "done") false 1000 here refl
      refl refl refl refl refl (omega arith)

abbrev judged : Judged.Session agreeing
judged = record { strategy = (Agreement.happens agreeing pauses true watching).0; judged = true }

abbrev adopted : ExternalStop
adopted = External.turn_started (set_up (new_external_stop 500 (some false)))

adopted_run : Reach Retry.Step (set_up (new_external_stop 500 (some false))) adopted
adopted_run = next here Retry.starts_turn

open_turn_is_retried_example :
    (t : ℕ × ℕ) × (adopted.timers ≡ t ∷ [])
    × (t.1 ≤ adopted.now + adopted.timeout)
    × ((Retry.happens (External.tick t.0) true (Retry.later 700 adopted)).1 ≡ (
        if not adopted.user_speaking && Retry.is_heard adopted
        then Retry.ends_turn adopted
        else []))
unfolding External.turn_started set_up new_external_stop
open_turn_is_retried_example =
    open_turn_is_retried 500 (some false) adopted true 700 adopted_run refl (omega arith)
