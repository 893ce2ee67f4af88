-- ===== src/Turns/Stops/SpeechTimeout/Ending.antt =====
-- processor/turns/stop.go: that SpeechTimeoutStop ends a turn once the user has fallen silent.
use voxigo.Prelude.{
  Reach, Reach-keeps, ℕ, ◌≤◌, ◌≡◌, refl, Bool, true, false, ◌||◌, ◌&&◌, Text, Option, none, some,
  List, [], ◌∷◌, ◌++◌, arith, exists_in, ◌==◌,
}
use voxigo.Frames.{
  stt_metadata, vad_user_started_speaking, vad_user_stopped_speaking, transcription,
  interim_transcription,
}
use voxigo.Turns.Controller.{Trigger, inference_triggered, stopped}
use voxigo.Turns.Timers.{only_timer, is_due}
use voxigo.Turns.Stops.Scripts.{outcome, answer_with}
use voxigo.Turns.Stops.SpeechTimeout.{
  SpeechTimeoutStop, new_speech_timeout_stop, discard_pending_end_of_turn, turn_started,
  turn_stopped, maybe_trigger, handle_vad_stopped, handle_transcription, record_transcript,
  after_transcript, process_body, on_user_timer, on_stt_timer, Event, frame, user_timer, stt_timer,
  act,
}
use voxigo.Turns.Stops.SpeechTimeout.Floor.{
  Session, happens, Step, acts, starts_turn, stops_turn, passes, fresh,
}

-- Whether the timer that a closure stops still runs.
abbrev armed : Option (ℕ × ℕ) → List (ℕ × ℕ) → Bool
armed none ts = false
armed (some t) ts = exists_in (λ (u : ℕ × ℕ). t.0 == u.0 && t.1 == u.1) ts

-- After a VAD stop each wait is over or its timer runs.
pub record StillWaits (s : SpeechTimeoutStop) : Type 0 where
  pub only : s.user_timers ≡ only_timer s.cancel_user
  pub user : s.vad_stopped ≡ true → (s.user_speech_done || armed s.cancel_user s.user_timers) ≡ true
  pub stt : s.vad_stopped ≡ true → (s.stt_done || armed s.cancel_stt s.stt_timers) ≡ true

after_transcript-StillWaits :
    (taken : Bool) (s : SpeechTimeoutStop)
    → StillWaits s
    → StillWaits (outcome (answer_with taken turn_stopped) (after_transcript s)).0
unfolding after_transcript turn_stopped
after_transcript-StillWaits true s h = ground arith
after_transcript-StillWaits false s h = ground arith

record_transcript-StillWaits :
    (text : Text) (finalized : Bool) (s : SpeechTimeoutStop)
    → StillWaits s
    → StillWaits (record_transcript text finalized s)
unfolding record_transcript
record_transcript-StillWaits text finalized s h = ground arith

happens-StillWaits :
    (e : Event) (taken : Bool) (s : SpeechTimeoutStop)
    → StillWaits s
    → StillWaits (happens e taken s).0
unfolding act process_body discard_pending_end_of_turn handle_vad_stopped handle_transcription
    on_user_timer on_stt_timer turn_stopped
happens-StillWaits (frame (stt_metadata latency)) taken s h = ground arith
happens-StillWaits (frame (vad_user_started_speaking w)) taken s h = ground arith
happens-StillWaits (frame (vad_user_stopped_speaking window ts)) taken s h = ground arith
happens-StillWaits (frame (transcription text finalized)) taken s h =
    after_transcript-StillWaits taken (record_transcript text finalized s)
      (record_transcript-StillWaits text finalized s h)
happens-StillWaits (frame (interim_transcription text)) taken s h = ground arith
happens-StillWaits (frame _) taken s h = h
happens-StillWaits (user_timer n) true s h = ground arith
happens-StillWaits (user_timer n) false s h = ground arith
happens-StillWaits (stt_timer n) true s h = ground arith
happens-StillWaits (stt_timer n) false s h = ground arith

Step-StillWaits : (x y : Session) → Step x y → StillWaits x.strategy → StillWaits y.strategy
unfolding turn_started turn_stopped
Step-StillWaits x y (acts e taken) h = happens-StillWaits e taken x.strategy h
Step-StillWaits x y starts_turn h = ground arith
Step-StillWaits x y stops_turn h = ground arith
Step-StillWaits x y (passes d) h = ground arith

-- The timers run out at the time `t`: each goes off if it still runs when its turn comes.
abbrev lapse :
    Bool → (ℕ → Event) → Option (ℕ × ℕ) → SpeechTimeoutStop → SpeechTimeoutStop × List Trigger
lapse taken event none s = (s, [])
lapse taken event (some t) s = happens (event t.0) taken s

abbrev pub user_then_stt : Bool → SpeechTimeoutStop → List Trigger
user_then_stt taken s =
    let first = lapse taken user_timer s.cancel_user s in
    first.1 ++ (lapse taken stt_timer first.0.cancel_stt first.0).1

abbrev pub stt_then_user : Bool → SpeechTimeoutStop → List Trigger
stt_then_user taken s =
    let first = lapse taken stt_timer s.cancel_stt s in
    first.1 ++ (lapse taken user_timer first.0.cancel_user first.0).1

abbrev pub DueBy : Option (ℕ × ℕ) → ℕ → Type 0
DueBy none t = Unit
DueBy (some timer) t = timer.1 ≤ t

armed-is_due :
    (t : ℕ × ℕ) (now : ℕ) (ts : List (ℕ × ℕ))
    → t.1 ≤ now
    → armed (some t) ts ≡ true
    → is_due t.0 now ts ≡ true
armed-is_due t now [] l h = cc
armed-is_due t now (u ∷ ts) l h = ground (arith, armed-is_due t now ts l)

stt-is_due :
    (c : Option (ℕ × ℕ)) (now : ℕ) (ts : List (ℕ × ℕ))
    → DueBy c now
    → armed c ts ≡ true
    → (t : ℕ × ℕ) × (c ≡ some t) × (is_due t.0 now ts ≡ true)
stt-is_due none now ts d h = cc
stt-is_due (some t) now ts d h = (t, refl, armed-is_due t now ts d h)

user_then_stt-ends :
    (taken : Bool) (s : SpeechTimeoutStop)
    → StillWaits s
    → s.vad_stopped ≡ true
    → s.vad_speaking ≡ false
    → (s.wait_for_tx ≡ true → s.have_text ≡ true)
    → (s.user_speech_done && s.stt_done) ≡ false
    → DueBy s.cancel_user s.now
    → DueBy s.cancel_stt s.now
    → user_then_stt taken s ≡ inference_triggered ∷ stopped s.announces ∷ []
unfolding act on_user_timer on_stt_timer maybe_trigger turn_stopped
user_then_stt-ends true s h v q x n du ds =
    let due = stt-is_due s.cancel_stt s.now s.stt_timers ds in ground arith
user_then_stt-ends false s h v q x n du ds =
    let due = stt-is_due s.cancel_stt s.now s.stt_timers ds in ground arith

stt_then_user-ends :
    (taken : Bool) (s : SpeechTimeoutStop)
    → StillWaits s
    → s.vad_stopped ≡ true
    → s.vad_speaking ≡ false
    → (s.wait_for_tx ≡ true → s.have_text ≡ true)
    → (s.user_speech_done && s.stt_done) ≡ false
    → DueBy s.cancel_user s.now
    → DueBy s.cancel_stt s.now
    → stt_then_user taken s ≡ inference_triggered ∷ stopped s.announces ∷ []
unfolding act on_user_timer on_stt_timer maybe_trigger turn_stopped
stt_then_user-ends true s h v q x n du ds =
    let due = stt-is_due s.cancel_stt s.now s.stt_timers ds in ground arith
stt_then_user-ends false s h v q x n du ds =
    let due = stt-is_due s.cancel_stt s.now s.stt_timers ds in ground arith

-- A turn does end: in every session, when the user has fallen silent to the VAD, text is in hand
-- if it is awaited, and one of the two waits is still open, the timers that run end the turn once
-- both are due: in either order, and whether or not the controller takes the stop, they signal
-- inference and the stop, once.
pub silence_ends_turn :
    (timeout : ℕ) (wait : Option Bool) (taken : Bool) (x : Session)
    → Reach Step (fresh timeout wait) x
    → x.strategy.vad_stopped ≡ true
    → x.strategy.vad_speaking ≡ false
    → (x.strategy.wait_for_tx ≡ true → x.strategy.have_text ≡ true)
    → (x.strategy.user_speech_done && x.strategy.stt_done) ≡ false
    → DueBy x.strategy.cancel_user x.strategy.now
    → DueBy x.strategy.cancel_stt x.strategy.now
    → let signals = inference_triggered ∷ stopped x.strategy.announces ∷ [] in
      (user_then_stt taken x.strategy ≡ signals) × (stt_then_user taken x.strategy ≡ signals)
unfolding new_speech_timeout_stop
silence_ends_turn timeout wait taken x run v q t n du ds =
    let h = Reach-keeps (λ y. StillWaits y.strategy) Step-StillWaits (ground arith) run in
    (
      user_then_stt-ends taken x.strategy h v q t n du ds,
      stt_then_user-ends taken x.strategy h v q t n du ds,
    )
