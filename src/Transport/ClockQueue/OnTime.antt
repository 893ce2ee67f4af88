-- ===== src/Transport/ClockQueue/OnTime.antt =====
-- transport/clockqueue.go: when a frame is let out.
use mathlib.Core.Path.{subst}
use voxigo.Prelude.{
  ==_iff, sym, Reach, Reach-keeps, ℕ, suc, ◌≤◌, ◌<◌, ◌≡◌, ◌⊎◌, inl, inr, refl, Option, none, some,
  List, [], ◌∷◌, arith, All, ltb, ◌==◌, Bool-cases,
}
use voxigo.Frames.{Frame}
use voxigo.Transport.ClockQueue.{
  Timed, new_clock_queue, drop, enqueue, signal, next_frame, first_of, take, take_from, Stage,
  looking, idle, sleeping, due, State, initial, look, look_at, deliver, take_due, RunStep, looks,
  wakes, looks_again, runs_out, takes, Step, runs, enqueues, signals, drops, passes,
}
use voxigo.Transport.ClockQueue.Ordered.{
  Before, IsSorted, All-heap_push, All-weaken, heap_push-IsSorted,
}

-- What `run` knows of the frame it waits for: a frame in the queue with its number is that frame.
abbrev Known : Timed → List Timed → ℕ → Type 0
Known it heap n = (it.seq < n) × All (λ x. x.seq ≡ it.seq → x.pts ≡ it.pts) heap

abbrev Holds : Stage → List Timed → ℕ → ℕ → Type 0
Holds looking heap n now = Unit
Holds idle heap n now = Unit
Holds (sleeping it) heap n now = Known it heap n
Holds (due it) heap n now = Known it heap n × (it.pts ≤ now)

pub record IsOrdered (s : State) : Type 0 where
  pub sorted : IsSorted s.queue.heap
  pub fresh : All (λ x. x.seq < s.queue.next_seq) s.queue.heap
  pub holds : Holds s.stage s.queue.heap s.queue.next_seq s.now

Holds-map :
    (stage : Stage) (heap heap' : List Timed) (n n' now now' : ℕ)
    → ((it : Timed) → Known it heap n → Known it heap' n')
    → now ≤ now'
    → Holds stage heap n now
    → Holds stage heap' n' now'
Holds-map looking heap heap' n n' now now' f l h = tt
Holds-map idle heap heap' n n' now now' f l h = tt
Holds-map (sleeping it) heap heap' n n' now now' f l h = f it h
Holds-map (due it) heap heap' n n' now now' f l h = (f it h.0, omega arith)

enqueue-IsOrdered :
    (pts : ℕ) (f : Frame) (s : State)
    → IsOrdered s
    → IsOrdered (record s { queue = enqueue pts f s.queue; pending = suc s.pending })
unfolding enqueue
enqueue-IsOrdered pts f s h =
    let x : Timed = record { pts = pts; seq = s.queue.next_seq; frame = f } in
    record {
      sorted = heap_push-IsSorted x s.queue.heap h.fresh h.sorted;
      fresh =
          All-heap_push (λ y. y.seq < suc s.queue.next_seq) x s.queue.heap (omega arith)
            (All-weaken (λ y. y.seq < s.queue.next_seq) _ (λ y l. omega arith) s.queue.heap
              h.fresh);
      holds =
          Holds-map s.stage s.queue.heap _ s.queue.next_seq _ s.now s.now
            (λ it k. (
              omega (arith, k.0),
              All-heap_push (λ y. y.seq ≡ it.seq → y.pts ≡ it.pts) x s.queue.heap
                  (λ e. absurd (omega (arith, k.0))) k.1,
            ))
            (omega arith) h.holds;
    }

Known-first :
    (it : Timed) (xs : List Timed) (n : ℕ)
    → IsSorted (it ∷ xs)
    → All (λ x. x.seq < n) (it ∷ xs)
    → Known it (it ∷ xs) n
Known-first it xs n h f =
    (f.0, ((λ e. refl), All-weaken (Before it) _ (λ y b e. absurd (b.1 (sym e))) xs h.0))

abbrev Found : Option Timed → List Timed → ℕ → Type 0
Found none heap n = Unit
Found (some it) heap n = Known it heap n

first-Found :
    (heap : List Timed) (n : ℕ)
    → IsSorted heap
    → All (λ x. x.seq < n) heap
    → Found (first_of heap) heap n
first-Found [] n h f = tt
first-Found (it ∷ xs) n h f = Known-first it xs n h f

look_at-IsOrdered :
    (o : Option Timed) (s : State)
    → IsOrdered s
    → Found o s.queue.heap s.queue.next_seq
    → IsOrdered (look_at o s)
unfolding look_at
look_at-IsOrdered none s h k = record { sorted = h.sorted; fresh = h.fresh; holds = tt }
look_at-IsOrdered (some it) s h k = elim (Bool-cases (ltb s.now it.pts)) [
  | inl e ↦ rw e (record { sorted = h.sorted; fresh = h.fresh; holds = k })
  | inr e ↦ rw e (record { sorted = h.sorted; fresh = h.fresh; holds = (k, ground arith) })
]

deliver-IsOrdered :
    (n : ℕ) (heap : List Timed) (s : State)
    → IsOrdered s
    → IsSorted heap
    → All (λ x. x.seq < s.queue.next_seq) heap
    → IsOrdered (deliver (take_from n heap s.queue) s)
unfolding deliver take_from
deliver-IsOrdered n [] s h sorted fresh = record { sorted = h.sorted; fresh = h.fresh; holds = tt }
deliver-IsOrdered n (x ∷ xs) s h sorted fresh = elim (Bool-cases (x.seq == n)) [
  | inl e ↦ rw e (record { sorted = sorted.1; fresh = fresh.1; holds = tt })
  | inr e ↦ rw e (record { sorted = h.sorted; fresh = h.fresh; holds = tt })
]

stage-Holds :
    (s : State) (stage : Stage)
    → s.stage ≡ stage
    → IsOrdered s
    → Holds stage s.queue.heap s.queue.next_seq s.now
stage-Holds s stage e h = subst (λ g. Holds g s.queue.heap s.queue.next_seq s.now) e h.holds

RunStep-IsOrdered : {s t : State} → RunStep s t → IsOrdered s → IsOrdered t
unfolding look next_frame take_due take
RunStep-IsOrdered {s} (looks e) h =
    look_at-IsOrdered (first_of s.queue.heap) s h
      (first-Found s.queue.heap s.queue.next_seq h.sorted h.fresh)
RunStep-IsOrdered (wakes e n) h = record { sorted = h.sorted; fresh = h.fresh; holds = tt }
RunStep-IsOrdered (looks_again it e n) h = record { sorted = h.sorted; fresh = h.fresh; holds = tt }
RunStep-IsOrdered {s} (runs_out it e l) h = record {
  sorted = h.sorted;
  fresh = h.fresh;
  holds = (stage-Holds s (sleeping it) e h, ground arith);
}
RunStep-IsOrdered {s} (takes it e) h = deliver-IsOrdered it.seq s.queue.heap s h h.sorted h.fresh

Step-IsOrdered : (s t : State) → Step s t → IsOrdered s → IsOrdered t
unfolding drop signal
Step-IsOrdered s t (runs r) h = RunStep-IsOrdered r h
Step-IsOrdered s t (enqueues pts f) h = enqueue-IsOrdered pts f s h
Step-IsOrdered s t (signals n e) h = record { sorted = h.sorted; fresh = h.fresh; holds = h.holds }
Step-IsOrdered s t drops h = record {
  sorted = tt;
  fresh = tt;
  holds =
      Holds-map s.stage s.queue.heap [] s.queue.next_seq _ s.now s.now (λ it k. (k.0, tt))
        (omega arith) h.holds;
}
Step-IsOrdered s t (passes d) h = record {
  sorted = h.sorted;
  fresh = h.fresh;
  holds =
      Holds-map s.stage s.queue.heap _ s.queue.next_seq _ s.now _ (λ it k. k) (omega arith) h.holds;
}

pub reached-IsOrdered : {s : State} → Reach Step initial s → IsOrdered s
unfolding new_clock_queue
reached-IsOrdered run =
    Reach-keeps IsOrdered Step-IsOrdered (record { sorted = tt; fresh = tt; holds = tt }) run

-- What a step lets out: nothing, or the first frame of the queue, whose time has come.
abbrev pub LetsOut : State → State → Type 0
LetsOut s t =
    (t.delivered ≡ s.delivered)
    ⊎ ((it : Timed) × (t.delivered ≡ (s.now, it) ∷ s.delivered)
        × (s.queue.heap ≡ it ∷ t.queue.heap)
        × (it.pts ≤ s.now)
        × All (Before it) t.queue.heap)

look_at-delivered : (o : Option Timed) (s : State) → (look_at o s).delivered ≡ s.delivered
unfolding look_at
look_at-delivered none s = refl
look_at-delivered (some it) s = ground arith

deliver-LetsOut :
    (it : Timed) (heap : List Timed) (s : State)
    → s.queue.heap ≡ heap
    → IsSorted heap
    → Known it heap s.queue.next_seq
    → it.pts ≤ s.now
    → LetsOut s (deliver (take_from it.seq heap s.queue) s)
unfolding deliver take_from
deliver-LetsOut it [] s q h k l = inl refl
deliver-LetsOut it (x ∷ xs) s q h k l = elim (Bool-cases (x.seq == it.seq)) [
  | inl e ↦ rw e (inr (x, refl, q, omega (arith, k.1.0 ((==_iff _ _).0 e)), h.0))
  | inr e ↦ rw e (inl refl)
]

RunStep-LetsOut : (s t : State) → RunStep s t → IsOrdered s → LetsOut s t
unfolding look next_frame take_due take
RunStep-LetsOut s t (looks e) h = inl (look_at-delivered (first_of s.queue.heap) s)
RunStep-LetsOut s t (wakes e n) h = inl refl
RunStep-LetsOut s t (looks_again it e n) h = inl refl
RunStep-LetsOut s t (runs_out it e l) h = inl refl
RunStep-LetsOut s t (takes it e) h =
    let (k, l) = stage-Holds s (due it) e h in deliver-LetsOut it s.queue.heap s refl h.sorted k l

-- A frame is let out on time and in order: in every interleaving of the delivery with pushes,
-- interruptions and the time, a step delivers nothing, or exactly the first frame of the queue: its
-- timestamp has come, and every frame left has a later one, or the same and was pushed later.
pub let_out_on_time : (s t : State) → Reach Step initial s → Step s t → LetsOut s t
let_out_on_time s t run (runs r) = RunStep-LetsOut s t r (reached-IsOrdered run)
let_out_on_time s t run (enqueues pts f) = inl refl
let_out_on_time s t run (signals n e) = inl refl
let_out_on_time s t run drops = inl refl
let_out_on_time s t run (passes d) = inl refl
