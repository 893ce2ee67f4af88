-- ===== src/Processor/Dtmf.antt =====
-- processor/dtmf/aggregator.go: keys collected into a transcription. A timer is its number;
-- `AfterFunc` timers whose callback has not run and whose `Stop` came in time are `running`.
pub mod Digits
mod Examples
use voxigo.Prelude.{
  ℕ, suc, ◌≡◌, Bool, true, false, not, Option, none, some, List, [], ◌∷◌, ◌++◌, Text, text_eq,
  if◌then◌else◌, keep_if, ◌==◌,
}
use voxigo.Frames.{Frame, Body, Direction, input_dtmf}

-- What the aggregator pushes: a frame that it forwards, or a finalized transcription downstream.
pub data Pushed : Type 0 where
  forwarded : Frame → Direction → Pushed
  transcribed : Text → Pushed

-- `timed` is whether a timeout is configured. `pushed` lists what is pushed in the order in which
-- it is decided under the lock: the push itself follows the unlock, so what the timer's goroutine
-- and the frames' goroutine have taken may go out in another order.
pub record Aggregator : Type 0 where
  pub terminator : Text
  pub timed : Bool
  pub prefix : Text
  pub buf : Text
  pub timer : Option ℕ
  pub running : List ℕ
  pub next_timer : ℕ
  pub pushed : List Pushed

-- `#` stands in for an empty terminator.
unfoldable pub new_aggregator : Text → Bool → Text → Aggregator
new_aggregator terminator timed prefix = record {
  terminator = if text_eq terminator [] then 35 ∷ [] else terminator;
  timed = timed;
  prefix = prefix;
  buf = [];
  timer = none;
  running = [];
  next_timer = 0;
  pushed = [];
}

abbrev pub stopped_timer : Option ℕ → List ℕ → List ℕ
stopped_timer none ns = ns
stopped_timer (some n) ns = keep_if (λ i. not (n == i)) ns

unfoldable pub stop_timer : Aggregator → Aggregator
stop_timer a = record a { timer = none; running = stopped_timer a.timer a.running }

unfoldable pub arm_timer : Aggregator → Aggregator
unfolding stop_timer
arm_timer a =
    let stopped = stop_timer a in
    if a.timed
    then record stopped {
      timer = some a.next_timer;
      running = a.next_timer ∷ stopped.running;
      next_timer = suc a.next_timer;
    }
    else a

unfoldable pub emit : Text → Aggregator → Aggregator
emit text a =
    if text_eq text []
    then a
    else record a { pushed = a.pushed ++ transcribed (a.prefix ++ text) ∷ [] }

unfoldable pub handle : Text → Aggregator → Aggregator
unfolding emit stop_timer arm_timer
handle button a =
    if text_eq button a.terminator
    then emit a.buf (stop_timer (record a { buf = [] }))
    else arm_timer (record a { buf = a.buf ++ button })

-- The callback of a timer; a `Stop` that came too late leaves it to run all the same.
unfoldable pub fire : ℕ → Aggregator → Aggregator
unfolding emit
fire n a =
    emit a.buf
      (record a { buf = []; timer = none; running = keep_if (λ i. not (n == i)) a.running })

abbrev forward : Frame → Direction → Aggregator → Aggregator
forward f dir a = record a { pushed = a.pushed ++ forwarded f dir ∷ [] }

abbrev pub handle_body : Body → Aggregator → Aggregator
unfolding handle
handle_body (input_dtmf button) a = handle button a
handle_body _ a = a

unfoldable pub process_frame : Frame → Direction → Aggregator → Aggregator
unfolding handle_body
process_frame f dir a = handle_body f.body (forward f dir a)

-- What happens to an aggregator: a frame, a timer's callback, late or not, and the cleanup.
pub data Act : Type 0 where
  frame_comes : Frame → Direction → Act
  timer_fires : ℕ → Act
  cleans_up : Act

unfoldable pub act : Act → Aggregator → Aggregator
unfolding process_frame fire stop_timer
act (frame_comes f dir) a = process_frame f dir a
act (timer_fires n) a = fire n a
act cleans_up a = stop_timer a

unfoldable pub acts : List Act → Aggregator → Aggregator
unfolding act
acts [] a = a
acts (x ∷ xs) a = acts xs (act x a)
