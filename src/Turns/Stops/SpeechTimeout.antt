-- ===== src/Turns/Stops/SpeechTimeout.antt =====
-- processor/turns/stop.go: SpeechTimeoutStop. `cancel_user` and `cancel_stt` are the timers, with
-- the times they are due at, that the closures of these names stop; `now` is the time.
pub mod Floor
pub mod Ending
use voxigo.Prelude.{
  ℕ, suc, ◌+◌, ◌-◌, Bool, true, false, not, ◌&&◌, ◌||◌, Option, none, some, List, [], ◌∷◌, Text,
  if◌then◌else◌, leb, ◌==◌,
}
use voxigo.Frames.{
  Frame, Body, stt_metadata, vad_user_started_speaking, vad_user_stopped_speaking, transcription,
  interim_transcription,
}
use voxigo.Turns.Controller.{Script, done, trigger, inference_triggered, stopped, continue, Methods}
use voxigo.Turns.Timers
use voxigo.Turns.Timers.{without, is_due}
use voxigo.Turns.Starts.{or_true}
use voxigo.Turns.Stops.Scripts.{trigger_stopped, finish}

pub record SpeechTimeoutStop : Type 0 where
  pub announces : Bool
  pub user_speech_timeout : ℕ
  pub wait_for_tx : Bool
  pub stt_timeout : ℕ
  pub stop_window : ℕ
  pub have_text : Bool
  pub vad_speaking : Bool
  pub vad_stopped : Bool
  pub tx_finalized : Bool
  pub user_speech_done : Bool
  pub stt_done : Bool
  pub cancel_user : Option (ℕ × ℕ)
  pub cancel_stt : Option (ℕ × ℕ)
  pub user_timers : List (ℕ × ℕ)
  pub stt_timers : List (ℕ × ℕ)
  pub next_timer : ℕ
  pub now : ℕ

unfoldable pub default_user_speech_timeout : ℕ
default_user_speech_timeout = 600000000

unfoldable pub new_speech_timeout_stop : ℕ → Option Bool → SpeechTimeoutStop
unfolding default_user_speech_timeout
new_speech_timeout_stop timeout wait = record {
  announces = true;
  user_speech_timeout = if timeout == 0 then default_user_speech_timeout else timeout;
  wait_for_tx = or_true wait;
  stt_timeout = 0;
  stop_window = 0;
  have_text = false;
  vad_speaking = false;
  vad_stopped = false;
  tx_finalized = false;
  user_speech_done = false;
  stt_done = false;
  cancel_user = none;
  cancel_stt = none;
  user_timers = [];
  stt_timers = [];
  next_timer = 0;
  now = 0;
}

abbrev pub is_empty : Text → Bool
is_empty [] = true
is_empty (c ∷ cs) = false

unfoldable pub cancel_stt_timer : SpeechTimeoutStop → SpeechTimeoutStop
cancel_stt_timer s = record s {
  cancel_stt = none;
  stt_timers = Timers.stopped s.cancel_stt s.stt_timers;
}

unfoldable pub cancel_timers : SpeechTimeoutStop → SpeechTimeoutStop
unfolding cancel_stt_timer
cancel_timers s =
    cancel_stt_timer
      (record s { cancel_user = none; user_timers = Timers.stopped s.cancel_user s.user_timers })

unfoldable pub discard_pending_end_of_turn : SpeechTimeoutStop → SpeechTimeoutStop
unfolding cancel_timers
discard_pending_end_of_turn s = cancel_timers (record s {
  tx_finalized = false;
  vad_stopped = false;
  user_speech_done = false;
  stt_done = false;
})

unfoldable pub reset : Bool → SpeechTimeoutStop → SpeechTimeoutStop
unfolding discard_pending_end_of_turn
reset clear_vad_speaking s = discard_pending_end_of_turn (record s {
  have_text = false;
  vad_speaking = if clear_vad_speaking then false else s.vad_speaking;
})

unfoldable pub turn_started : SpeechTimeoutStop → SpeechTimeoutStop
unfolding reset
turn_started s = reset false s

unfoldable pub turn_stopped : SpeechTimeoutStop → SpeechTimeoutStop
unfolding reset
turn_stopped s = reset true s

unfoldable pub maybe_trigger : SpeechTimeoutStop → Script SpeechTimeoutStop
unfolding cancel_timers
maybe_trigger s =
    if s.vad_speaking
    then finish s
    else if s.wait_for_tx && not s.have_text
    then finish s
    else if s.user_speech_done && s.stt_done
    then trigger_stopped s.announces (cancel_timers s) finish
    else finish s

unfoldable pub restart_user_speech_timer : SpeechTimeoutStop → SpeechTimeoutStop
restart_user_speech_timer s =
    let timer : ℕ × ℕ = (s.next_timer, s.now + s.user_speech_timeout) in
    record s {
      user_speech_done = false;
      cancel_user = some timer;
      user_timers = timer ∷ Timers.stopped s.cancel_user s.user_timers;
      next_timer = suc s.next_timer;
    }

-- The wait is what is left of the STT budget; it is not positive where this is 0.
unfoldable pub stt_wait : SpeechTimeoutStop → ℕ
stt_wait s = s.stt_timeout - s.stop_window

unfoldable pub arm_stt : SpeechTimeoutStop → SpeechTimeoutStop
unfolding stt_wait
arm_stt s =
    let timer : ℕ × ℕ = (s.next_timer, s.now + stt_wait s) in
    record s {
      cancel_stt = some timer;
      stt_timers = timer ∷ s.stt_timers;
      next_timer = suc s.next_timer;
    }

unfoldable pub handle_vad_stopped : ℕ → SpeechTimeoutStop → SpeechTimeoutStop
unfolding restart_user_speech_timer stt_wait arm_stt
handle_vad_stopped window s =
    let waiting =
      restart_user_speech_timer
        (record s { vad_speaking = false; stop_window = window; vad_stopped = true }) in
    let open_wait = record waiting { stt_done = false } in
    if open_wait.tx_finalized || stt_wait open_wait == 0
    then record open_wait { stt_done = true }
    else arm_stt open_wait

-- The part of `handleTranscription` that records the transcript.
unfoldable pub record_transcript : Text → Bool → SpeechTimeoutStop → SpeechTimeoutStop
unfolding cancel_stt_timer
record_transcript text finalized s =
    let heard = record s { have_text = s.have_text || not (is_empty text) } in
    if finalized
    then if heard.stt_done
      then record heard { tx_finalized = true }
      else cancel_stt_timer (record heard { tx_finalized = true; stt_done = true })
    else heard

unfoldable pub after_transcript : SpeechTimeoutStop → Script SpeechTimeoutStop
unfolding maybe_trigger restart_user_speech_timer
after_transcript s =
    if s.user_speech_done && s.stt_done
    then maybe_trigger s
    else if not s.vad_speaking && not s.vad_stopped
    then finish (restart_user_speech_timer (record s { stt_done = true }))
    else finish s

unfoldable pub handle_transcription : Text → Bool → SpeechTimeoutStop → Script SpeechTimeoutStop
unfolding record_transcript after_transcript
handle_transcription text finalized s = after_transcript (record_transcript text finalized s)

unfoldable pub process_body : Body → SpeechTimeoutStop → Script SpeechTimeoutStop
unfolding discard_pending_end_of_turn handle_vad_stopped handle_transcription
process_body (stt_metadata latency) s = finish (record s { stt_timeout = latency })
process_body (vad_user_started_speaking w) s =
    finish (discard_pending_end_of_turn (record s { vad_speaking = true }))
process_body (vad_user_stopped_speaking window ts) s = finish (handle_vad_stopped window s)
process_body (transcription text finalized) s = handle_transcription text finalized s
process_body (interim_transcription text) s = finish (record s { tx_finalized = false })
process_body _ s = finish s

-- The callbacks of the two timers.
unfoldable pub on_user_timer : ℕ → SpeechTimeoutStop → Script SpeechTimeoutStop
unfolding maybe_trigger
on_user_timer n s =
    if is_due n s.now s.user_timers
    then maybe_trigger (record s {
      user_speech_done = true;
      cancel_user = none;
      user_timers = without n s.user_timers;
    })
    else finish s

unfoldable pub on_stt_timer : ℕ → SpeechTimeoutStop → Script SpeechTimeoutStop
unfolding maybe_trigger
on_stt_timer n s =
    if is_due n s.now s.stt_timers
    then maybe_trigger
        (record s { stt_done = true; cancel_stt = none; stt_timers = without n s.stt_timers })
    else finish s

unfoldable pub methods : Methods SpeechTimeoutStop
unfolding process_body turn_started turn_stopped
methods = record {
  process = λ f s. process_body f.body s;
  turn_started = turn_started;
  turn_stopped = turn_stopped;
}

-- What runs a part of the strategy that may decide.
pub data Event : Type 0 where
  frame : Body → Event
  user_timer stt_timer : ℕ → Event

unfoldable pub act : Event → SpeechTimeoutStop → Script SpeechTimeoutStop
unfolding process_body on_user_timer on_stt_timer
act (frame b) s = process_body b s
act (user_timer n) s = on_user_timer n s
act (stt_timer n) s = on_stt_timer n s
