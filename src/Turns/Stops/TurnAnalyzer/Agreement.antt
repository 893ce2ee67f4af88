-- ===== src/Turns/Stops/TurnAnalyzer/Agreement.antt =====
-- processor/turns/stop.go: when TurnAnalyzerStop ends a turn, over any session.
use Prim.Native.Nat.{max}
use voxigo.Prelude.{
  ◌-◌, Reach, Reach-keeps, ℕ, ◌+◌, ◌≤◌, ◌≡◌, refl, Bool, true, false, not, ◌&&◌, Text, Option, List,
  [], ◌∷◌, arith,
}
use voxigo.Frames.{
  Body, start_frame, stt_metadata, vad_user_started_speaking, vad_user_stopped_speaking,
  transcription, interim_transcription, input_audio,
}
use voxigo.Turns.Controller.{Trigger, inference_triggered, stopped}
use voxigo.Turns.Timers.{only_timer}
use voxigo.Turns.Stops.Scripts.{outcome, answer_with}
use voxigo.Turns.Stops.SpeechTimeout.{is_empty}
use voxigo.Turns.Stops.TurnAnalyzer.{
  Analyzing, TurnAnalyzerStop, new_turn_analyzer_stop, turn_started, turn_stopped, stopped_at,
  handle_vad_stopped, fall_back, handle_transcription, append, process_body, on_timeout, Event,
  frame, timeout, act, discard_pending_end_of_turn,
}

module _ (model : Analyzing) where
  open model use {Analyzer, append_audio, analyze_end_of_turn}

  abbrev pub happens : Event → Bool → TurnAnalyzerStop model → TurnAnalyzerStop model × List Trigger
  happens e taken s = outcome (answer_with taken (turn_stopped model)) (act model e s)

  -- A session, up to the cleanup.
  pub data Step (s : TurnAnalyzerStop model) : TurnAnalyzerStop model → Type 0 where
    acts : (e : Event) (taken : Bool) → Step s (happens e taken s).0
    starts_turn : Step s (turn_started model s)
    stops_turn : Step s (turn_stopped model s)
    passes : (d : ℕ) → Step s (record s { now = s.now + d })

  abbrev IsTimed : TurnAnalyzerStop model → Type 0
  IsTimed s = s.timers ≡ only_timer s.cancel_timeout

  fall_back-IsTimed :
      (answer : Trigger → TurnAnalyzerStop model → TurnAnalyzerStop model)
      (s : TurnAnalyzerStop model)
      → IsTimed s
      → IsTimed (outcome answer (fall_back model s)).0
  unfolding fall_back
  fall_back-IsTimed answer s h = ground arith

  turn_stopped-IsTimed : (s : TurnAnalyzerStop model) → IsTimed s → IsTimed (turn_stopped model s)
  unfolding turn_stopped
  turn_stopped-IsTimed s h = ground arith

  frame-IsTimed :
      (b : Body) (taken : Bool) (s : TurnAnalyzerStop model)
      → IsTimed s
      → IsTimed (happens (frame b) taken s).0
  unfolding act process_body discard_pending_end_of_turn handle_vad_stopped append
      handle_transcription turn_stopped
  frame-IsTimed start_frame true s h = h
  frame-IsTimed start_frame false s h = h
  frame-IsTimed (stt_metadata latency) taken s h = h
  frame-IsTimed (vad_user_started_speaking secs) taken s h = ground arith
  frame-IsTimed (input_audio audio) true s h = ground arith
  frame-IsTimed (input_audio audio) false s h = ground arith
  frame-IsTimed (vad_user_stopped_speaking window ts) true s h = ground arith
  frame-IsTimed (vad_user_stopped_speaking window ts) false s h = ground arith
  frame-IsTimed (transcription text finalized) true s h = ground arith
  frame-IsTimed (transcription text finalized) false s h = ground arith
  frame-IsTimed (interim_transcription text) taken s h = h
  frame-IsTimed _ taken s h = h

  timeout-IsTimed :
      (n : ℕ) (taken : Bool) (s : TurnAnalyzerStop model)
      → IsTimed s
      → IsTimed (happens (timeout n) taken s).0
  unfolding act on_timeout turn_stopped
  timeout-IsTimed n true s h = ground arith
  timeout-IsTimed n false s h = ground arith

  Step-IsTimed : (s t : TurnAnalyzerStop model) → Step s t → IsTimed s → IsTimed t
  unfolding turn_started turn_stopped
  Step-IsTimed s t (acts (frame b) taken) h = frame-IsTimed b taken s h
  Step-IsTimed s t (acts (timeout n) taken) h = timeout-IsTimed n taken s h
  Step-IsTimed s t starts_turn h = ground arith
  Step-IsTimed s t stops_turn h = ground arith
  Step-IsTimed s t (passes d) h = h

  -- The signals of a stop.
  abbrev pub ends_turn : TurnAnalyzerStop model → List Trigger
  ends_turn s = inference_triggered ∷ stopped s.announces ∷ []

  -- The strategy after a VAD stop, and later.
  abbrev pub after : Event → TurnAnalyzerStop model → TurnAnalyzerStop model
  after e s = (happens e false s).0

  abbrev pub signals : Event → TurnAnalyzerStop model → List Trigger
  signals e s = (happens e false s).1

  abbrev pub agrees : TurnAnalyzerStop model → Bool
  agrees s =
      let verdict = (analyze_end_of_turn s.analyzer).1 in not verdict.failed && verdict.complete

  -- A finalized transcript after the verdict.
  finalized-ends :
      (window : ℕ) (ts : Option ℕ) (text : Text) (s : TurnAnalyzerStop model)
      → IsTimed s
      → s.wait_for_tx ≡ true
      → s.text ≡ []
      → agrees s ≡ true
      → is_empty text ≡ false
      → let e = frame (vad_user_stopped_speaking window ts) in
        (signals e s ≡ []) × (signals (frame (transcription text true)) (after e s) ≡ ends_turn s)
  unfolding act process_body handle_vad_stopped handle_transcription fall_back
  finalized-ends window ts text s h w n a t = ground arith

  abbrev pub net_due : ℕ → Option ℕ → TurnAnalyzerStop model → ℕ
  net_due window ts s =
      max (s.now + (analyze_end_of_turn s.analyzer).1.took)
        (stopped_at ts s.now + s.stt_timeout - window)

  abbrev pub later : ℕ → TurnAnalyzerStop model → TurnAnalyzerStop model
  later d s = record s { now = d }

  -- Another transcript, and the safety net after it.
  transcript_first-ends :
      (window : ℕ) (ts : Option ℕ) (text : Text) (d : ℕ) (s : TurnAnalyzerStop model)
      → IsTimed s
      → s.wait_for_tx ≡ true
      → s.text ≡ []
      → s.tx_finalized ≡ false
      → s.timeout_expired ≡ false
      → agrees s ≡ true
      → is_empty text ≡ false
      → net_due window ts s ≤ d
      → let quiet = after (frame (vad_user_stopped_speaking window ts)) s in
        let heard = frame (transcription text false) in
        (signals heard quiet ≡ [])
        × (signals (timeout s.next_timer) (later d (after heard quiet)) ≡ ends_turn s)
  unfolding act process_body handle_vad_stopped handle_transcription fall_back on_timeout
  transcript_first-ends window ts text d s h w n f e a t l = ground arith

  -- The safety net, and a transcript after it.
  net_first-ends :
      (window : ℕ) (ts : Option ℕ) (text : Text) (finalized : Bool) (d : ℕ)
      (s : TurnAnalyzerStop model)
      → IsTimed s
      → s.wait_for_tx ≡ true
      → s.text ≡ []
      → agrees s ≡ true
      → is_empty text ≡ false
      → net_due window ts s ≤ d
      → let quiet = later d (after (frame (vad_user_stopped_speaking window ts)) s) in
        (signals (timeout s.next_timer) quiet ≡ [])
        × (signals (frame (transcription text finalized)) (after (timeout s.next_timer) quiet)
            ≡ ends_turn s)
  unfolding act process_body handle_vad_stopped handle_transcription fall_back on_timeout
  net_first-ends window ts text finalized d s h w n a t l = ground arith

  reached-IsTimed :
      (a : Analyzer) (wait : Option Bool) {s : TurnAnalyzerStop model}
      → Reach Step (new_turn_analyzer_stop model a wait) s
      → IsTimed s
  unfolding new_turn_analyzer_stop
  reached-IsTimed a wait run = Reach-keeps IsTimed Step-IsTimed refl run

  -- A complete turn ends as soon as its transcript has come, and whatever comes first. In any
  -- session, where the strategy waits for a transcript and has none yet, let the model judge the
  -- turn complete at a VAD stop. The VAD stop signals nothing; a finalized transcript with text
  -- then ends the turn at once; another transcript with text signals nothing, and the safety net,
  -- once it is due, ends the turn; and if the safety net, once due, comes first, it signals nothing
  -- and the transcript ends the turn. The net is due when the STT latency has passed since the end
  -- of the speech, or the analysis is done if that is later.
  pub verdict_ends_turn :
      (a : Analyzer) (wait : Option Bool) (s : TurnAnalyzerStop model) (window : ℕ) (ts : Option ℕ)
      (text : Text) (finalized : Bool) (d : ℕ)
      → Reach Step (new_turn_analyzer_stop model a wait) s
      → s.wait_for_tx ≡ true
      → s.text ≡ []
      → s.tx_finalized ≡ false
      → s.timeout_expired ≡ false
      → agrees s ≡ true
      → is_empty text ≡ false
      → net_due window ts s ≤ d
      → let e = frame (vad_user_stopped_speaking window ts) in
        let heard = frame (transcription text false) in
        let net = timeout s.next_timer in
        (signals e s ≡ [])
        × (signals (frame (transcription text true)) (after e s) ≡ ends_turn s)
        × (signals heard (after e s) ≡ [])
        × (signals net (later d (after heard (after e s))) ≡ ends_turn s)
        × (signals net (later d (after e s)) ≡ [])
        × (signals (frame (transcription text finalized)) (after net (later d (after e s)))
            ≡ ends_turn s)
  verdict_ends_turn a wait s window ts text finalized d run w n f x g t l =
      let h = reached-IsTimed a wait run in
      let (quiet, final) = finalized-ends window ts text s h w n g t in
      let (held, ended) = transcript_first-ends window ts text d s h w n f x g t l in
      let (elapsed, late) = net_first-ends window ts text finalized d s h w n g t l in
      (quiet, final, held, ended, elapsed, late)
