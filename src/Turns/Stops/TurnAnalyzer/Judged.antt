-- ===== src/Turns/Stops/TurnAnalyzer/Judged.antt =====
-- processor/turns/stop.go: that TurnAnalyzerStop ends no turn that the model has not judged complete.
use voxigo.Prelude.{ℕ, ◌+◌, ◌≡◌, ◌⊎◌, Bool, true, false, not, ◌||◌, Text, List, exists_in}
use voxigo.Frames.{vad_user_started_speaking, vad_user_stopped_speaking, transcription, input_audio}
use voxigo.Turns.Controller.{Trigger, inference_triggered, stopped}
use voxigo.Turns.Stops.SpeechTimeout.{is_empty}
use voxigo.Turns.Stops.TurnAnalyzer.{
  Analyzing, TurnAnalyzerStop, turn_started, turn_stopped, Event, frame, timeout,
}
use voxigo.Turns.Stops.TurnAnalyzer.Agreement.{happens, agrees, ends_turn}

abbrev is_stop : Trigger → Bool
is_stop inference_triggered = true
is_stop (stopped a) = true
is_stop _ = false

abbrev pub has_stop : List Trigger → Bool
has_stop ts = exists_in is_stop ts

module _ (model : Analyzing) where
  open model use {Analyzer, append_audio, analyze_end_of_turn}

  -- The strategy in a session, and whether the model has judged the turn complete since the VAD
  -- last heard the user start.
  pub record Session : Type 0 where
    pub strategy : TurnAnalyzerStop model
    pub judged : Bool

  abbrev pub judged_after : Event → TurnAnalyzerStop model → Bool → Bool
  judged_after (frame (vad_user_started_speaking secs)) s j = false
  judged_after (frame (vad_user_stopped_speaking window ts)) s j = agrees model s
  judged_after (frame (input_audio audio)) s j =
      j || (append_audio audio s.vad_speaking s.analyzer).1
  judged_after (frame _) s j = j
  judged_after (timeout n) s j = j

  -- Whether the VAD stands behind the speech that an event decides about.
  abbrev pub is_bracketed : Event → TurnAnalyzerStop model → Bool
  is_bracketed (frame (vad_user_stopped_speaking window ts)) s = true
  is_bracketed (frame _) s = s.vad_speaking || s.vad_stopped
  is_bracketed (timeout n) s = s.vad_speaking || s.vad_stopped

  abbrev pub text_after : Event → TurnAnalyzerStop model → Text
  text_after (frame (transcription text finalized)) s = text
  text_after (frame _) s = s.text
  text_after (timeout n) s = s.text

  -- A transcript, with text or not, that comes when the safety net has run out.
  abbrev pub is_late : Event → TurnAnalyzerStop model → Bool
  is_late (frame (transcription text false)) s = s.timeout_expired
  is_late (frame (transcription text true)) s = false
  is_late (frame _) s = false
  is_late (timeout n) s = false

  -- A session, up to the cleanup.
  pub data Step (x : Session) : Session → Type 0 where
    acts :
        (e : Event) (taken : Bool)
        → Step x (record {
          strategy = (happens model e taken x.strategy).0;
          judged = judged_after e x.strategy x.judged;
        })
    starts_turn : Step x (record x { strategy = turn_started model x.strategy })
    stops_turn : Step x (record x { strategy = turn_stopped model x.strategy })
    passes :
        (d : ℕ) → Step x (record x { strategy = record x.strategy { now = x.strategy.now + d } })

  abbrev IsJudged : TurnAnalyzerStop model → Bool → Type 0
  IsJudged s j = s.turn_complete ≡ true → (s.vad_speaking || s.vad_stopped) ≡ true → j ≡ true

  -- What a decision rests on.
  abbrev pub Decides : Event → TurnAnalyzerStop model → Bool → List Trigger → Type 0
  Decides e s j signals =
      (has_stop signals ≡ false)
      ⊎ ((signals ≡ ends_turn model s)
          × (is_bracketed e s ≡ true → judged_after e s j ≡ true)
          × (s.wait_for_tx ≡ true → (is_late e s || not (is_empty (text_after e s))) ≡ true))
