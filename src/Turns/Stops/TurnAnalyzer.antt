-- ===== src/Turns/Stops/TurnAnalyzer.antt =====
-- processor/turns/stop.go: TurnAnalyzerStop. The end-of-turn model is a parameter, the methods of
-- `turn.Analyzer` over its state; what it reports of a prediction is metrics and left out.
-- `cancel_timeout` is the timer, with the time it is due at, that the closure of that name stops.
pub mod Agreement
pub mod Judged
use Prim.Native.Nat.{max}
use voxigo.Prelude.{
  ℕ, suc, ◌+◌, ◌-◌, Bool, true, false, not, ◌&&◌, Option, none, some, List, [], ◌∷◌, Text,
  if◌then◌else◌,
}
use voxigo.Frames.{
  Body, start_frame, stt_metadata, vad_user_started_speaking, vad_user_stopped_speaking,
  transcription, interim_transcription, input_audio, other, system_category,
}
use voxigo.Turns.Controller.{
  Script, done, trigger, broadcast, inference_triggered, continue, Methods,
}
use voxigo.Turns.Timers
use voxigo.Turns.Timers.{without, is_due}
use voxigo.Turns.Starts.{or_true}
use voxigo.Turns.Stops.Scripts.{trigger_stopped, finish}
use voxigo.Turns.Stops.SpeechTimeout.{is_empty}

-- `AnalyzeEndOfTurn`: Complete or not, whether it failed, and how long it took.
pub record Verdict : Type 0 where
  pub complete : Bool
  pub failed : Bool
  pub took : ℕ

pub record Analyzing : Type 1 where
  pub Analyzer : Type 0
  pub update_vad_start_secs : ℕ → Analyzer → Analyzer
  pub append_audio : List ℕ → Bool → Analyzer → Analyzer × Bool
  pub analyze_end_of_turn : Analyzer → Analyzer × Verdict
  pub clear : Analyzer → Analyzer

-- The time of the VAD stop; a frame with no timestamp stopped now.
abbrev pub stopped_at : Option ℕ → ℕ → ℕ
stopped_at none now = now
stopped_at (some t) now = t

-- What runs a part of the strategy that may decide.
pub data Event : Type 0 where
  frame : Body → Event
  timeout : ℕ → Event

module _ (model : Analyzing) where
  open model use {Analyzer, update_vad_start_secs, append_audio, analyze_end_of_turn, clear}

  pub record TurnAnalyzerStop : Type 0 where
    pub announces : Bool
    pub analyzer : Analyzer
    pub wait_for_tx : Bool
    pub stt_timeout : ℕ
    pub stop_window : ℕ
    pub text : Text
    pub turn_complete : Bool
    pub vad_speaking : Bool
    pub vad_stopped : Bool
    pub tx_finalized : Bool
    pub timeout_expired : Bool
    pub cancel_timeout : Option (ℕ × ℕ)
    pub timers : List (ℕ × ℕ)
    pub next_timer : ℕ
    pub now : ℕ

  unfoldable pub new_turn_analyzer_stop : Analyzer → Option Bool → TurnAnalyzerStop
  new_turn_analyzer_stop a wait = record {
    announces = true;
    analyzer = a;
    wait_for_tx = or_true wait;
    stt_timeout = 0;
    stop_window = 0;
    text = [];
    turn_complete = false;
    vad_speaking = false;
    vad_stopped = false;
    tx_finalized = false;
    timeout_expired = false;
    cancel_timeout = none;
    timers = [];
    next_timer = 0;
    now = 0;
  }

  unfoldable pub cancel : TurnAnalyzerStop → TurnAnalyzerStop
  cancel s = record s { cancel_timeout = none; timers = Timers.stopped s.cancel_timeout s.timers }

  unfoldable pub discard_pending_end_of_turn : TurnAnalyzerStop → TurnAnalyzerStop
  unfolding cancel
  discard_pending_end_of_turn s = cancel (record s {
    turn_complete = false;
    tx_finalized = false;
    timeout_expired = false;
    vad_stopped = false;
  })

  unfoldable pub reset_state : TurnAnalyzerStop → TurnAnalyzerStop
  unfolding discard_pending_end_of_turn
  reset_state s = discard_pending_end_of_turn (record s { text = [] })

  unfoldable pub turn_started : TurnAnalyzerStop → TurnAnalyzerStop
  unfolding reset_state
  turn_started s = reset_state s

  unfoldable pub turn_stopped : TurnAnalyzerStop → TurnAnalyzerStop
  unfolding reset_state
  turn_stopped s = let s' = reset_state s in record s' { analyzer = clear s'.analyzer }

  -- What follows a decision, and what follows none, is `k`.
  unfoldable pub fire :
      TurnAnalyzerStop → (TurnAnalyzerStop → Script TurnAnalyzerStop) → Script TurnAnalyzerStop
  unfolding cancel
  fire s k = trigger_stopped s.announces (cancel s) k

  abbrev is_nil : Option (ℕ × ℕ) → Bool
  is_nil none = true
  is_nil (some t) = false

  unfoldable pub maybe_trigger :
      TurnAnalyzerStop → (TurnAnalyzerStop → Script TurnAnalyzerStop) → Script TurnAnalyzerStop
  unfolding fire
  maybe_trigger s k =
      if not s.turn_complete
      then k s
      else if not s.wait_for_tx
      then fire s k
      else if is_empty s.text
      then k s
      else if s.tx_finalized
      then fire s k
      else if is_nil s.cancel_timeout
      then fire s k
      else k s

  -- A safety net that is due at the given time, in place of the one that runs.
  unfoldable pub arm_timeout_at : ℕ → TurnAnalyzerStop → TurnAnalyzerStop
  arm_timeout_at due s =
      let timer : ℕ × ℕ = (s.next_timer, due) in
      record s {
        cancel_timeout = some timer;
        timers = timer ∷ Timers.stopped s.cancel_timeout s.timers;
        next_timer = suc s.next_timer;
      }

  unfoldable pub arm_timeout : TurnAnalyzerStop → TurnAnalyzerStop
  unfolding arm_timeout_at
  arm_timeout s = arm_timeout_at (s.now + (s.stt_timeout - s.stop_window)) s

  -- `time.Until` of it counts from 0 once it has passed.
  unfoldable pub stt_deadline : Option ℕ → TurnAnalyzerStop → ℕ
  stt_deadline timestamp s = stopped_at timestamp s.now + s.stt_timeout - s.stop_window

  -- The part of `handleVADStopped` before it decides. The analysis takes time.
  unfoldable pub analyze : ℕ → Option ℕ → TurnAnalyzerStop → TurnAnalyzerStop
  unfolding stt_deadline arm_timeout_at
  analyze window timestamp s =
      let quiet = record s { vad_speaking = false; stop_window = window; vad_stopped = true } in
      let deadline = stt_deadline timestamp quiet in
      let (a, verdict) = analyze_end_of_turn s.analyzer in
      let analyzed = record quiet {
        analyzer = a;
        turn_complete = not verdict.failed && verdict.complete;
        now = s.now + verdict.took;
      } in
      arm_timeout_at (max analyzed.now deadline) analyzed

  unfoldable pub handle_vad_stopped : ℕ → Option ℕ → TurnAnalyzerStop → Script TurnAnalyzerStop
  unfolding analyze maybe_trigger
  handle_vad_stopped window timestamp s = maybe_trigger (analyze window timestamp s) finish

  -- The end of `handleTranscription`: a transcript with no VAD stop behind it.
  unfoldable pub fall_back : TurnAnalyzerStop → Script TurnAnalyzerStop
  unfolding arm_timeout
  fall_back s = finish (
      if not s.vad_speaking && not s.vad_stopped
      then arm_timeout (record s { turn_complete = true })
      else s)

  unfoldable pub handle_transcription : Text → Bool → TurnAnalyzerStop → Script TurnAnalyzerStop
  unfolding maybe_trigger fall_back fire
  handle_transcription text finalized s =
      let heard = record s { text = text } in
      if finalized
      then maybe_trigger (record heard { tx_finalized = true }) fall_back
      else if heard.timeout_expired && heard.turn_complete
      then fire heard finish
      else fall_back heard

  unfoldable pub append : List ℕ → TurnAnalyzerStop → Script TurnAnalyzerStop
  unfolding maybe_trigger
  append audio s =
      let (a, complete) = append_audio audio s.vad_speaking s.analyzer in
      if complete
      then maybe_trigger (record s { analyzer = (analyze_end_of_turn a).0; turn_complete = true })
          finish
      else finish (record s { analyzer = a })

  unfoldable pub process_body : Body → TurnAnalyzerStop → Script TurnAnalyzerStop
  unfolding discard_pending_end_of_turn append handle_vad_stopped handle_transcription
  -- the speech control parameters
  process_body start_frame s = trigger s (broadcast (other system_category false)) finish
  process_body (stt_metadata latency) s = finish (record s { stt_timeout = latency })
  process_body (vad_user_started_speaking secs) s = finish (
      discard_pending_end_of_turn
        (record s { analyzer = update_vad_start_secs secs s.analyzer; vad_speaking = true }))
  process_body (input_audio audio) s = append audio s
  process_body (vad_user_stopped_speaking window timestamp) s =
      handle_vad_stopped window timestamp s
  process_body (transcription text finalized) s = handle_transcription text finalized s
  process_body (interim_transcription text) s = finish (record s { tx_finalized = false })
  process_body _ s = finish s

  -- The callback of the safety net.
  unfoldable pub on_timeout : ℕ → TurnAnalyzerStop → Script TurnAnalyzerStop
  unfolding maybe_trigger
  on_timeout n s =
      if is_due n s.now s.timers
      then maybe_trigger
          (record s { timeout_expired = true; cancel_timeout = none; timers = without n s.timers })
          finish
      else finish s

  unfoldable pub methods : Methods TurnAnalyzerStop
  unfolding process_body turn_started turn_stopped
  methods = record {
    process = λ f s. process_body f.body s;
    turn_started = turn_started;
    turn_stopped = turn_stopped;
  }

  unfoldable pub act : Event → TurnAnalyzerStop → Script TurnAnalyzerStop
  unfolding process_body on_timeout
  act (frame b) s = process_body b s
  act (timeout n) s = on_timeout n s
