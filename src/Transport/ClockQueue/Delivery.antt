-- ===== src/Transport/ClockQueue/Delivery.antt =====
-- transport/clockqueue.go: that a frame whose time has come is let out.
use mathlib.Core.Path.{subst}
use voxigo.Prelude.{
  Reach-first, ◌∙◌, Reach, here, next, Reach-keeps, ℕ, ◌≤◌, ◌<◌, ◌≡◌, ◌≢◌, ◌⊎◌, inl, inr, refl, sym,
  ap, Bool, true, Option, none, some, List, [], ◌∷◌, arith, ltb, ◌==◌, Bool-cases, ==_iff,
}
use voxigo.Transport.ClockQueue.{
  Timed, drop, enqueue, signal, next_frame, first_of, take, take_from, Stage, looking, idle,
  sleeping, due, State, initial, look, look_at, deliver, take_due, RunStep, looks, wakes,
  looks_again, runs_out, takes, Step, runs, enqueues, signals, drops, passes,
}

abbrev Woken : Bool → ℕ → Type 0
Woken notify pending = (notify ≡ true) ⊎ (0 < pending)

-- While `run` sleeps longer than the first frame of the queue may wait, a signal is there or is
-- about to be.
abbrev Watches : Stage → List Timed → Bool → ℕ → Type 0
Watches looking heap notify pending = Unit
Watches (due it) heap notify pending = Unit
Watches idle [] notify pending = Unit
Watches idle (x ∷ xs) notify pending = Woken notify pending
Watches (sleeping it) [] notify pending = Unit
Watches (sleeping it) (x ∷ xs) notify pending = (it.pts ≤ x.pts) ⊎ Woken notify pending

abbrev NoLostWakeup : State → Type 0
NoLostWakeup s = Watches s.stage s.queue.heap s.queue.notify s.pending

Woken-Watches :
    (stage : Stage) (heap : List Timed) (notify : Bool) (pending : ℕ)
    → Woken notify pending
    → Watches stage heap notify pending
Woken-Watches looking heap notify pending w = tt
Woken-Watches (due it) heap notify pending w = tt
Woken-Watches idle [] notify pending w = tt
Woken-Watches idle (x ∷ xs) notify pending w = w
Woken-Watches (sleeping it) [] notify pending w = tt
Woken-Watches (sleeping it) (x ∷ xs) notify pending w = inr w

dropped-Watches : (stage : Stage) (notify : Bool) (pending : ℕ) → Watches stage [] notify pending
dropped-Watches looking notify pending = tt
dropped-Watches idle notify pending = tt
dropped-Watches (sleeping it) notify pending = tt
dropped-Watches (due it) notify pending = tt

look_at-Watches :
    (heap : List Timed) (s : State)
    → Watches (look_at (first_of heap) s).stage heap s.queue.notify s.pending
unfolding look_at
look_at-Watches [] s = tt
look_at-Watches (it ∷ xs) s = elim (Bool-cases (ltb s.now it.pts)) [
  | inl e ↦ rw e (inl (omega arith))
  | inr e ↦ rw e tt
]

look_at-kept :
    (o : Option Timed) (s : State)
    → ((look_at o s).queue ≡ s.queue) × ((look_at o s).pending ≡ s.pending)
unfolding look_at
look_at-kept none s = (refl, refl)
look_at-kept (some it) s = ground arith

look-NoLostWakeup : (s : State) → NoLostWakeup (look s)
unfolding look next_frame
look-NoLostWakeup s =
    let (q, p) = look_at-kept (first_of s.queue.heap) s in
    rw (q, p) (look_at-Watches s.queue.heap s)

looking-NoLostWakeup : (s : State) → s.stage ≡ looking → NoLostWakeup s
looking-NoLostWakeup s e = subst (λ g. Watches g s.queue.heap s.queue.notify s.pending) (sym e) tt

take_due-looking : (it : Timed) (s : State) → (take_due it s).stage ≡ looking
unfolding take_due take take_from deliver
take_due-looking it s = ground arith

Step-NoLostWakeup : (s t : State) → Step s t → NoLostWakeup s → NoLostWakeup t
unfolding drop signal enqueue
Step-NoLostWakeup s t (runs (looks e)) h = look-NoLostWakeup s
Step-NoLostWakeup s t (runs (wakes e n)) h = tt
Step-NoLostWakeup s t (runs (looks_again it e n)) h = tt
Step-NoLostWakeup s t (runs (runs_out it e l)) h = tt
Step-NoLostWakeup s t (runs (takes it e)) h =
    looking-NoLostWakeup (take_due it s) (take_due-looking it s)
Step-NoLostWakeup s t (enqueues pts f) h = Woken-Watches s.stage _ _ _ (inr (omega arith))
Step-NoLostWakeup s t (signals n e) h = Woken-Watches s.stage _ _ _ (inl refl)
Step-NoLostWakeup s t drops h = dropped-Watches s.stage _ _
Step-NoLostWakeup s t (passes d) h = h

-- The states that a delivery goes through.
abbrev taking : Timed → State → State
taking it s = record s { stage = due it }

abbrev pub let_out : Timed → List Timed → State → State
let_out it rest s = record s {
  queue = record (s.queue) { heap = rest };
  stage = looking;
  delivered = (s.now, it) ∷ s.delivered;
}

take_due-first :
    (it jt : Timed) (rest heap : List Timed) (s : State)
    → s.queue.heap ≡ heap
    → heap ≡ it ∷ rest
    → jt.seq ≡ it.seq
    → deliver (take_from jt.seq heap s.queue) s ≡ let_out it rest s
unfolding deliver take_from
take_due-first it jt rest [] s q h e = ground arith
take_due-first it jt rest (x ∷ xs) s q h e = ground arith

look-first :
    (it : Timed) (rest heap : List Timed) (s : State)
    → heap ≡ it ∷ rest
    → it.pts ≤ s.now
    → look_at (first_of heap) s ≡ taking it s
unfolding look_at
look-first it rest [] s h l = ground arith
look-first it rest (x ∷ xs) s h l = ground arith

take_due-other :
    (it jt : Timed) (rest heap : List Timed) (s : State)
    → heap ≡ it ∷ rest
    → jt.seq ≢ it.seq
    → deliver (take_from jt.seq heap s.queue) s ≡ record s { stage = looking }
unfolding deliver take_from
take_due-other it jt rest [] s h n = refl
take_due-other it jt rest (x ∷ xs) s h n = ground arith

-- The delivery goroutine lets out `it` by its own steps, at the time that it is.
abbrev Delivers : Timed → List Timed → State → Type 0
Delivers it rest s =
    (t : State) × Reach RunStep s t
    × (t.delivered ≡ (s.now, it) ∷ s.delivered)
    × (t.queue.heap ≡ rest)

due-Delivers :
    (it jt : Timed) (rest : List Timed) (s : State)
    → s.stage ≡ due jt
    → s.queue.heap ≡ it ∷ rest
    → jt.seq ≡ it.seq
    → Delivers it rest s
unfolding take_due take
due-Delivers it jt rest s e h q =
    let done = take_due-first it jt rest s.queue.heap s refl h q in
    (
      take_due jt s,
      next here (takes jt e),
      ap (λ (t : State). t.delivered) done,
      ap (λ (t : State). t.queue.heap) done,
    )

-- One step first, which lets out nothing and takes no time.
step-Delivers :
    (it : Timed) (rest : List Timed) {s m : State}
    → RunStep s m
    → m.now ≡ s.now
    → m.delivered ≡ s.delivered
    → Delivers it rest m
    → Delivers it rest s
step-Delivers it rest {s} step n d (t, run, out, left) =
    (t, Reach-first step run, rw (← n, ← d) out, left)

looking-Delivers :
    (it : Timed) (rest : List Timed) (s : State)
    → s.stage ≡ looking
    → s.queue.heap ≡ it ∷ rest
    → it.pts ≤ s.now
    → Delivers it rest s
unfolding look next_frame
looking-Delivers it rest s e h l =
    let seen = look-first it rest s.queue.heap s h l in
    step-Delivers it rest (looks e) (ap (λ (t : State). t.now) seen)
      (ap (λ (t : State). t.delivered) seen)
      (due-Delivers it it rest (look s) (ap (λ (t : State). t.stage) seen)
        (ap (λ (t : State). t.queue.heap) seen ∙ h) refl)

due_or_looking-Delivers :
    (it jt : Timed) (rest : List Timed) (s : State)
    → s.stage ≡ due jt
    → s.queue.heap ≡ it ∷ rest
    → it.pts ≤ s.now
    → Delivers it rest s
unfolding take_due take
due_or_looking-Delivers it jt rest s e h l = elim (Bool-cases (jt.seq == it.seq)) [
  | inl same ↦ due-Delivers it jt rest s e h ((==_iff _ _).0 same)
  | inr other ↦
      let missed =
        take_due-other it jt rest s.queue.heap s h (λ q. cc ((==_iff jt.seq it.seq).1 q)) in
      step-Delivers it rest (takes jt e) (ap (λ (t : State). t.now) missed)
        (ap (λ (t : State). t.delivered) missed)
        (looking-Delivers it rest (take_due jt s) (ap (λ (t : State). t.stage) missed)
          (ap (λ (t : State). t.queue.heap) missed ∙ h)
          (subst (λ n. it.pts ≤ n) (sym (ap (λ (t : State). t.now) missed)) l))
]

stage-Delivers :
    (stage : Stage) (it : Timed) (rest : List Timed) (s : State)
    → s.stage ≡ stage
    → s.queue.heap ≡ it ∷ rest
    → it.pts ≤ s.now
    → s.pending ≡ 0
    → Watches stage (it ∷ rest) s.queue.notify s.pending
    → Delivers it rest s
stage-Delivers looking it rest s e h l p w = looking-Delivers it rest s e h l
stage-Delivers (due jt) it rest s e h l p w = due_or_looking-Delivers it jt rest s e h l
stage-Delivers idle it rest s e h l p (inl n) =
    step-Delivers it rest (wakes e n) refl refl (looking-Delivers it rest _ refl h l)
stage-Delivers idle it rest s e h l p (inr busy) = absurd (omega arith)
stage-Delivers (sleeping jt) it rest s e h l p (inl early) =
    step-Delivers it rest (runs_out jt e (ground arith)) refl refl
      (due_or_looking-Delivers it jt rest _ refl h l)
stage-Delivers (sleeping jt) it rest s e h l p (inr (inl n)) =
    step-Delivers it rest (looks_again jt e n) refl refl (looking-Delivers it rest _ refl h l)
stage-Delivers (sleeping jt) it rest s e h l p (inr (inr busy)) = absurd (omega arith)

-- A frame whose time has come does not wait: in every interleaving of the delivery with pushes,
-- interruptions and the time, when no push is half-done and the timestamp of the first frame has
-- come, the delivery goroutine lets that frame out by its own steps, with no further push and no
-- time passing, whatever it was sleeping on.
pub due_is_let_out :
    (it : Timed) (rest : List Timed) (s : State)
    → Reach Step initial s
    → s.pending ≡ 0
    → s.queue.heap ≡ it ∷ rest
    → it.pts ≤ s.now
    → (t : State) × Reach RunStep s t
      × (t.delivered ≡ (s.now, it) ∷ s.delivered)
      × (t.queue.heap ≡ rest)
due_is_let_out it rest s run p h l =
    let awake = Reach-keeps NoLostWakeup Step-NoLostWakeup tt run in
    stage-Delivers s.stage it rest s refl h l p
      (subst (λ heap. Watches s.stage heap s.queue.notify s.pending) h awake)
