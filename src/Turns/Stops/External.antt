-- ===== src/Turns/Stops/External.antt =====
-- processor/turns/stop.go: ExternalStop. `cancel_timer` is the timer, with the time it is due at,
-- that the closure of that name stops.
pub mod Retry
use voxigo.Prelude.{
  ℕ, suc, ◌+◌, Bool, true, false, not, ◌&&◌, ◌||◌, Option, none, some, List, [], ◌∷◌, ◌++◌, Text,
  if◌then◌else◌, ◌==◌,
}
use voxigo.Frames.{
  Body, proposed_user_started_speaking, proposed_user_stopped_speaking, user_started_speaking,
  user_stopped_speaking, transcription, interim_transcription,
}
use voxigo.Turns.Controller.{Script, continue, Methods}
use voxigo.Turns.Timers
use voxigo.Turns.Timers.{without, is_due}
use voxigo.Turns.Starts.{or_true}
use voxigo.Turns.Stops.Scripts.{trigger_stopped, finish}
use voxigo.Turns.Stops.SpeechTimeout.{is_empty}

pub record ExternalStop : Type 0 where
  pub announces : Bool
  pub timeout : ℕ
  pub wait_for_tx : Bool
  pub text : Text
  pub user_speaking : Bool
  pub seen_interim : Bool
  pub announced_elsewhere : Bool
  pub turn_open : Bool
  pub cancel_timer : Option (ℕ × ℕ)
  pub timers : List (ℕ × ℕ)
  pub next_timer : ℕ
  pub now : ℕ

unfoldable pub new_external_stop : ℕ → Option Bool → ExternalStop
new_external_stop timeout wait = record {
  announces = true;
  timeout = if timeout == 0 then 500000000 else timeout;
  wait_for_tx = or_true wait;
  text = [];
  user_speaking = false;
  seen_interim = false;
  announced_elsewhere = false;
  turn_open = false;
  cancel_timer = none;
  timers = [];
  next_timer = 0;
  now = 0;
}

-- `cancelT`.
unfoldable pub cancel : ExternalStop → ExternalStop
cancel s = record s { cancel_timer = none; timers = Timers.stopped s.cancel_timer s.timers }

unfoldable pub arm_tick : ExternalStop → ExternalStop
unfolding cancel
arm_tick s =
    let s' = cancel s in
    let timer : ℕ × ℕ = (s'.next_timer, s'.now + s'.timeout) in
    record s' {
      cancel_timer = some timer;
      timers = timer ∷ s'.timers;
      next_timer = suc s'.next_timer;
    }

unfoldable pub set_up : ExternalStop → ExternalStop
unfolding arm_tick
set_up s = arm_tick s

unfoldable pub reset : ExternalStop → ExternalStop
unfolding arm_tick
reset s = arm_tick (record s {
  text = [];
  user_speaking = false;
  seen_interim = false;
  announced_elsewhere = false;
})

unfoldable pub turn_started : ExternalStop → ExternalStop
unfolding reset
turn_started s = let s' = reset s in record s' { turn_open = true }

unfoldable pub turn_stopped : ExternalStop → ExternalStop
unfolding reset
turn_stopped s = let s' = reset s in record s' { turn_open = false }

unfoldable pub finalize : ExternalStop → (ExternalStop → Script ExternalStop) → Script ExternalStop
finalize s k =
    if s.announced_elsewhere then trigger_stopped false s k else trigger_stopped s.announces s k

unfoldable pub maybe_trigger :
    ExternalStop → (ExternalStop → Script ExternalStop) → Script ExternalStop
unfolding finalize
maybe_trigger s k =
    if s.user_speaking
    then k s
    else if not s.wait_for_tx
    then finalize s k
    else if not s.seen_interim && not (is_empty s.text)
    then finalize s k
    else k s

unfoldable pub handle_started_speaking : Bool → ExternalStop → ExternalStop
handle_started_speaking elsewhere s = record s {
  user_speaking = true;
  announced_elsewhere = elsewhere;
}

unfoldable pub handle_stopped_speaking : Bool → ExternalStop → Script ExternalStop
unfolding maybe_trigger
handle_stopped_speaking elsewhere s =
    maybe_trigger (record s { user_speaking = false; announced_elsewhere = elsewhere }) finish

unfoldable pub process_body : Body → ExternalStop → Script ExternalStop
unfolding handle_started_speaking handle_stopped_speaking arm_tick
process_body proposed_user_started_speaking s = finish (handle_started_speaking false s)
process_body proposed_user_stopped_speaking s = handle_stopped_speaking false s
process_body user_started_speaking s = finish (handle_started_speaking true s)
process_body user_stopped_speaking s = handle_stopped_speaking true s
process_body (interim_transcription text) s = finish (record s { seen_interim = true })
process_body (transcription text finalized) s =
    finish (arm_tick (record s { text = s.text ++ text; seen_interim = false }))
process_body _ s = finish s

unfoldable pub tick_again : ExternalStop → Script ExternalStop
unfolding arm_tick
tick_again s = finish (arm_tick s)

-- The callback of the retry timer.
unfoldable pub after_tick : ExternalStop → Script ExternalStop
unfolding maybe_trigger tick_again
after_tick s = if s.turn_open then maybe_trigger s tick_again else tick_again s

unfoldable pub on_tick : ℕ → ExternalStop → Script ExternalStop
unfolding after_tick
on_tick n s =
    if is_due n s.now s.timers
    then after_tick (record s { cancel_timer = none; timers = without n s.timers })
    else finish s

unfoldable pub methods : Methods ExternalStop
unfolding process_body turn_started turn_stopped
methods = record {
  process = λ f s. process_body f.body s;
  turn_started = turn_started;
  turn_stopped = turn_stopped;
}

-- What runs a part of the strategy that may decide.
pub data Event : Type 0 where
  frame : Body → Event
  tick : ℕ → Event

unfoldable pub act : Event → ExternalStop → Script ExternalStop
unfolding process_body on_tick
act (frame b) s = process_body b s
act (tick n) s = on_tick n s
