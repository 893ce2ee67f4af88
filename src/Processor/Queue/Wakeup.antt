-- ===== src/Processor/Queue/Wakeup.antt =====
-- processor/queue.go: producers and the one consumer, interleaved at the lock. A `push` is two
-- steps, the append under the lock and the signal after it; `get` alternates between a locked look
-- and the wait.
use voxigo.Prelude.{
  ℕ, suc, ◌<◌, ◌≡◌, refl, ◌≢◌, ◌⊎◌, inl, inr, true, false, none, some, List, [], ◌∷◌, arith,
}
use voxigo.Processor.Queue.{Item, Queue, append, signal, take, take_from, reset, new_queue}

-- Outside `get`, about to look under the lock, or in the select.
pub data Consumer : Type 0 where
  away looking waiting : Consumer

-- `pending` counts the producers between the two halves of a push.
pub record State : Type 0 where
  pub queue : Queue
  pub pending : ℕ
  pub consumer : Consumer

abbrev pub initial : State
initial = record { queue = new_queue; pending = 0; consumer = away }

pub data Step (s : State) : State → Type 0 where
  appends : (it : Item) → Step s (record s { queue = append it s.queue; pending = suc s.pending })
  signals : (n : ℕ) → s.pending ≡ suc n → Step s (record s { queue = signal s.queue; pending = n })
  calls : s.consumer ≡ away → Step s (record s { consumer = looking })
  hits :
      (it : Item) (q' : Queue)
      → s.consumer ≡ looking
      → take s.queue ≡ some (it, q')
      → Step s (record s { queue = q'; consumer = away })
  misses : s.consumer ≡ looking → take s.queue ≡ none → Step s (record s { consumer = waiting })
  wakes :
      s.consumer ≡ waiting
      → s.queue.notify ≡ true
      → Step s (record s { queue = record (s.queue) { notify = false }; consumer = looking })
  gives_up : s.consumer ≡ waiting → Step s (record s { consumer = away })
  resets : Step s (record s { queue = reset s.queue })

-- While the consumer waits and something is queued, a signal is there or is about to be.
abbrev pub NoLostWakeup : State → Type 0
NoLostWakeup s =
    s.consumer ≡ waiting → take s.queue ≢ none → (s.queue.notify ≡ true) ⊎ (0 < s.pending)

take_from-none :
    (s y o o' : List Item) (q q' : Queue)
    → o ≡ []
    → o' ≡ []
    → take_from s y o q ≡ none
    → take_from s y o' q' ≡ none
unfolding take_from
take_from-none [] [] [] [] q q' e e' h = refl
take_from-none (x ∷ s) y o o' q q' e e' h = ground arith
take_from-none [] (x ∷ y) o o' q q' e e' h = ground arith
take_from-none [] [] (x ∷ o) o' q q' e e' h = ground arith
take_from-none [] [] [] (x ∷ o') q q' e e' h = ground arith

take_from-rest : (s y o : List Item) (q : Queue) → take_from s y o q ≡ none → o ≡ []
unfolding take_from
take_from-rest [] [] [] q h = refl
take_from-rest (x ∷ s) y o q h = ground arith
take_from-rest [] (x ∷ y) o q h = ground arith
take_from-rest [] [] (x ∷ o) q h = ground arith

-- A flush adds nothing to an empty queue.
take-reset : (q : Queue) → take q ≡ none → take (reset q) ≡ none
unfolding take reset
take-reset q h =
    let e = take_from-rest q.start q.system q.rest q h in
    take_from-none q.start q.system q.rest _ q (reset q) e (rw e) h

pub Step-NoLostWakeup : {s t : State} → Step s t → NoLostWakeup s → NoLostWakeup t
unfolding append signal
Step-NoLostWakeup (appends it) h = λ w n. inr (omega arith)
Step-NoLostWakeup (signals n e) h = λ w m. inl refl
Step-NoLostWakeup (calls e) h = λ w n. ground arith
Step-NoLostWakeup (hits it q' e t) h = λ w n. ground arith
Step-NoLostWakeup (misses e t) h = λ w n. absurd (n t)
Step-NoLostWakeup (wakes e n) h = λ w m. ground arith
Step-NoLostWakeup (gives_up e) h = λ w n. ground arith
Step-NoLostWakeup {s} resets h = λ w n. unfold reset in h w (λ e. n (take-reset s.queue e))

-- The state after the wait has received the signal.
abbrev woken : State → State
woken s = record s { queue = record (s.queue) { notify = false }; consumer = looking }
