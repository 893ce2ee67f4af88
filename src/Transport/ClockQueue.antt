-- ===== src/Transport/ClockQueue.antt =====
-- transport/clockqueue.go: frames that wait for their presentation timestamp. The heap is kept as
-- `container/heap` shows it, by the order of `Less`: the code reads only its first element. `notify`
-- is whether the wake-up of the channel is pending.
pub mod Delivery
pub mod Ordered
pub mod OnTime
mod Examples
use voxigo.Prelude.{
  ℕ, suc, ◌+◌, ◌≡◌, Bool, true, false, Option, none, some, List, [], ◌∷◌, if◌then◌else◌, ltb, ◌==◌,
}
use voxigo.Frames.{Frame}

pub record Timed : Type 0 where
  pub pts : ℕ
  pub seq : ℕ
  pub frame : Frame

-- `Less`.
unfoldable pub less : Timed → Timed → Bool
less a b = if a.pts == b.pts then ltb a.seq b.seq else ltb a.pts b.pts

-- `heap.Push`.
unfoldable pub heap_push : Timed → List Timed → List Timed
heap_push x [] = x ∷ []
heap_push x (y ∷ ys) = if less x y then x ∷ y ∷ ys else y ∷ heap_push x ys

pub record ClockQueue : Type 0 where
  pub heap : List Timed
  pub next_seq : ℕ
  pub notify : Bool

unfoldable pub new_clock_queue : ClockQueue
new_clock_queue = record { heap = []; next_seq = 0; notify = false }

unfoldable pub drop : ClockQueue → ClockQueue
drop q = record q { heap = [] }

-- The two halves of `push`: under the lock, and the signal after it.
unfoldable pub enqueue : ℕ → Frame → ClockQueue → ClockQueue
unfolding heap_push
enqueue pts f q = record q {
  heap = heap_push (record { pts = pts; seq = q.next_seq; frame = f }) q.heap;
  next_seq = suc q.next_seq;
}

unfoldable pub signal : ClockQueue → ClockQueue
signal q = record q { notify = true }

unfoldable pub push : ℕ → Frame → ClockQueue → ClockQueue
unfolding enqueue signal
push pts f q = signal (enqueue pts f q)

abbrev pub first_of : List Timed → Option Timed
first_of [] = none
first_of (x ∷ xs) = some x

-- `next`.
unfoldable pub next_frame : ClockQueue → Option Timed
next_frame q = first_of q.heap

unfoldable pub take_from : ℕ → List Timed → ClockQueue → Option (Timed × ClockQueue)
take_from n [] q = none
take_from n (x ∷ xs) q = if x.seq == n then some (x, record q { heap = xs }) else none

unfoldable pub take : ℕ → ClockQueue → Option (Timed × ClockQueue)
unfolding take_from
take n q = take_from n q.heap q

-- Where the delivery goroutine stands in `run`: about to look, in the select of an empty queue, in
-- the select over the timer of a frame, or about to take a frame whose time has come.
pub data Stage : Type 0 where
  looking idle : Stage
  sleeping due : Timed → Stage

-- `pending` counts the pushes between their two halves; `delivered` are the frames pushed
-- downstream, the last one first, with the time of each.
pub record State : Type 0 where
  pub queue : ClockQueue
  pub pending : ℕ
  pub stage : Stage
  pub now : ℕ
  pub delivered : List (ℕ × Timed)

abbrev pub initial : State
initial = record { queue = new_clock_queue; pending = 0; stage = looking; now = 0; delivered = [] }

-- A round of `run` from its look at the queue to the select that follows.
unfoldable pub look_at : Option Timed → State → State
look_at none s = record s { stage = idle }
look_at (some it) s =
    if ltb s.now it.pts then record s { stage = sleeping it } else record s { stage = due it }

unfoldable pub look : State → State
unfolding look_at next_frame
look s = look_at (next_frame s.queue) s

-- The end of a round: the frame is delivered if it is still the first one.
unfoldable pub deliver : Option (Timed × ClockQueue) → State → State
deliver none s = record s { stage = looking }
deliver (some (it, q)) s = record s {
  queue = q;
  stage = looking;
  delivered = (s.now, it) ∷ s.delivered;
}

unfoldable pub take_due : Timed → State → State
unfolding take deliver
take_due it s = deliver (take it.seq s.queue) s

-- What the delivery goroutine does by itself.
pub data RunStep (s : State) : State → Type 0 where
  looks : s.stage ≡ looking → RunStep s (look s)
  wakes :
      s.stage ≡ idle
      → s.queue.notify ≡ true
      → RunStep s (record s { queue = record (s.queue) { notify = false }; stage = looking })
  looks_again :
      (it : Timed)
      → s.stage ≡ sleeping it
      → s.queue.notify ≡ true
      → RunStep s (record s { queue = record (s.queue) { notify = false }; stage = looking })
  runs_out :
      (it : Timed)
      → s.stage ≡ sleeping it
      → ltb s.now it.pts ≡ false
      → RunStep s (record s { stage = due it })
  takes : (it : Timed) → s.stage ≡ due it → RunStep s (take_due it s)

-- With the producers, an interruption, and the time.
pub data Step (s : State) : State → Type 0 where
  runs : {t : State} → RunStep s t → Step s t
  enqueues :
      (pts : ℕ) (f : Frame)
      → Step s (record s { queue = enqueue pts f s.queue; pending = suc s.pending })
  signals : (n : ℕ) → s.pending ≡ suc n → Step s (record s { queue = signal s.queue; pending = n })
  drops : Step s (record s { queue = drop s.queue })
  passes : (d : ℕ) → Step s (record s { now = s.now + d })
