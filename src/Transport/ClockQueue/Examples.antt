-- ===== src/Transport/ClockQueue/Examples.antt =====
-- transport/clockqueue.go on two words of a sentence.
use voxigo.Prelude.{Reach, here, next, ◌≡◌, refl, [], ◌∷◌, arith, map, ℕ}
use voxigo.Frames.{Frame, bot_speaking}
use voxigo.Transport.ClockQueue.{
  Timed, new_clock_queue, push, enqueue, signal, State, initial, Step, runs, enqueues, signals,
  passes, RunStep, takes, looks, look, take_due, less,
}
use voxigo.Transport.ClockQueue.OnTime.{LetsOut, let_out_on_time}
use voxigo.Transport.ClockQueue.Delivery.{due_is_let_out}

abbrev word : ℕ → Frame
word n = record { id = n; body = bot_speaking }

-- Frames of one time stay in the order they came in.
by_time :
    map
      (λ (t : Timed). t.frame.id)
      (push 20 (word 3) (push 10 (word 2) (push 20 (word 1) new_clock_queue))).heap
    ≡ 2 ∷ 1 ∷ 3 ∷ []
unfolding push new_clock_queue less
by_time = refl

abbrev pushed : State
pushed = record initial { queue = enqueue 5 (word 1) initial.queue; pending = 1 }

abbrev signaled : State
signaled = record pushed { queue = signal pushed.queue; pending = 0 }

abbrev late : State
late = record signaled { now = 7 }

late_run : Reach Step initial late
late_run = next (next (next here (enqueues 5 (word 1))) (signals 0 refl)) (passes 7)

abbrev first_word : Timed
first_word = record { pts = 5; seq = 0; frame = word 1 }

abbrev looked : State
looked = look late

looked_run : Reach Step initial looked
looked_run = next late_run (runs (looks refl))

let_out_on_time_example : LetsOut looked (take_due first_word looked)
unfolding look enqueue signal new_clock_queue
let_out_on_time_example =
    let_out_on_time looked (take_due first_word looked) looked_run (runs (takes first_word refl))

due_is_let_out_example :
    (t : State) × Reach RunStep late t
    × (t.delivered ≡ (late.now, first_word) ∷ late.delivered)
    × (t.queue.heap ≡ [])
unfolding enqueue signal new_clock_queue
due_is_let_out_example = due_is_let_out first_word [] late late_run refl refl (omega arith)
