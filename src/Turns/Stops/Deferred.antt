-- ===== src/Turns/Stops/Deferred.antt =====
-- processor/turns/stop.go: `Deferred` and ExternalCompletionStop, and the stop strategies as one
-- type of objects of the turn controller. What a strategy does alone is carried over to the object
-- that holds it by `within`.
use voxigo.Prelude.{Bool, true, false}
use voxigo.Frames.{Frame, Body, user_turn_inference_completed}
use voxigo.Turns.Controller.{
  Script, done, trigger, Trigger, started, reset_aggregation, inference_triggered, stopped, push,
  broadcast, Methods,
}
use voxigo.Turns.Stops.Scripts.{finish}
use voxigo.Turns.Stops.SpeechTimeout
use voxigo.Turns.Stops.SpeechTimeout.{SpeechTimeoutStop}
use voxigo.Turns.Stops.TurnAnalyzer
use voxigo.Turns.Stops.TurnAnalyzer.{Analyzing, TurnAnalyzerStop}
use voxigo.Turns.Stops.External
use voxigo.Turns.Stops.External.{ExternalStop}

-- `attach` of the wrapper hands the environment on with no callback for a finalization.
unfoldable pub drop_finalized {ℓ} : {S : Type ℓ} → Script S → Script S
drop_finalized (done s r) = done s r
drop_finalized (trigger s (started i a) k) = trigger s (started i a) (λ t. drop_finalized (k t))
drop_finalized (trigger s reset_aggregation k) =
    trigger s reset_aggregation (λ t. drop_finalized (k t))
drop_finalized (trigger s inference_triggered k) =
    trigger s inference_triggered (λ t. drop_finalized (k t))
drop_finalized (trigger s (stopped a) k) = drop_finalized (k s)
drop_finalized (trigger s (push f dir) k) = trigger s (push f dir) (λ t. drop_finalized (k t))
drop_finalized (trigger s (broadcast b) k) = trigger s (broadcast b) (λ t. drop_finalized (k t))

-- A script of a part, as a script of the object that holds it.
abbrev pub within {ℓ κ} : {S : Type ℓ} {T : Type κ} → (S → T) → (T → S → S) → Script S → Script T
within hold part (done s r) = done (hold s) r
within hold part (trigger s t k) = trigger (hold s) t (λ u. within hold part (k (part u s)))

module _ (model : Analyzing) where
  pub data StopStrategy : Type 0 where
    speech_timeout : SpeechTimeoutStop → StopStrategy
    turn_analyzer : TurnAnalyzerStop model → StopStrategy
    external : ExternalStop → StopStrategy
    -- EnableUserSpeakingFrames
    external_completion : Bool → StopStrategy
    deferred : StopStrategy → StopStrategy

  -- The part as it is by now; an object does not change its kind.
  speech_timeout_part : StopStrategy → SpeechTimeoutStop → SpeechTimeoutStop
  speech_timeout_part (speech_timeout s) old = s
  speech_timeout_part _ old = old

  turn_analyzer_part : StopStrategy → TurnAnalyzerStop model → TurnAnalyzerStop model
  turn_analyzer_part (turn_analyzer s) old = s
  turn_analyzer_part _ old = old

  external_part : StopStrategy → ExternalStop → ExternalStop
  external_part (external s) old = s
  external_part _ old = old

  deferred_part : StopStrategy → StopStrategy → StopStrategy
  deferred_part (deferred s) old = s
  deferred_part _ old = old

  -- `TriggerFinalized`.
  unfoldable pub process_completion : Body → Bool → StopStrategy → Script StopStrategy
  process_completion user_turn_inference_completed announces s =
      trigger s (stopped announces) finish
  process_completion _ announces s = finish s

  unfoldable pub process_stop : Frame → StopStrategy → Script StopStrategy
  unfolding drop_finalized process_completion speech_timeout_part turn_analyzer_part external_part
      deferred_part
  process_stop f (speech_timeout s) =
      within speech_timeout speech_timeout_part (SpeechTimeout.process_body f.body s)
  process_stop f (turn_analyzer s) =
      within turn_analyzer turn_analyzer_part (TurnAnalyzer.process_body model f.body s)
  process_stop f (external s) = within external external_part (External.process_body f.body s)
  process_stop f (external_completion a) = process_completion f.body a (external_completion a)
  process_stop f (deferred s) = within deferred deferred_part (drop_finalized (process_stop f s))

  unfoldable pub stop_turn_started : StopStrategy → StopStrategy
  stop_turn_started (speech_timeout s) = speech_timeout (SpeechTimeout.turn_started s)
  stop_turn_started (turn_analyzer s) = turn_analyzer (TurnAnalyzer.turn_started model s)
  stop_turn_started (external s) = external (External.turn_started s)
  stop_turn_started (external_completion a) = external_completion a
  stop_turn_started (deferred s) = deferred (stop_turn_started s)

  unfoldable pub stop_turn_stopped : StopStrategy → StopStrategy
  stop_turn_stopped (speech_timeout s) = speech_timeout (SpeechTimeout.turn_stopped s)
  stop_turn_stopped (turn_analyzer s) = turn_analyzer (TurnAnalyzer.turn_stopped model s)
  stop_turn_stopped (external s) = external (External.turn_stopped s)
  stop_turn_stopped (external_completion a) = external_completion a
  stop_turn_stopped (deferred s) = deferred (stop_turn_stopped s)

  unfoldable pub stop_methods : Methods StopStrategy
  unfolding process_stop stop_turn_started stop_turn_stopped
  stop_methods = record {
    process = process_stop;
    turn_started = stop_turn_started;
    turn_stopped = stop_turn_stopped;
  }

-- Everything but a finalization.
abbrev pub is_kept : Trigger → Bool
is_kept (stopped a) = false
is_kept _ = true

-- An environment that does nothing at a finalization.
abbrev pub without_stop {ℓ} : {S : Type ℓ} → (Trigger → S → S) → Trigger → S → S
without_stop answer (stopped a) s = s
without_stop answer t s = answer t s

module _ (model : Analyzing) where
  -- What the controller does to a strategy, done to the one in a wrapper.
  abbrev pub on_wrapped :
      (Trigger → StopStrategy model → StopStrategy model)
      → Trigger
      → StopStrategy model
      → StopStrategy model
  on_wrapped answer t (deferred s) = deferred (answer t s)
  on_wrapped answer t s = s
