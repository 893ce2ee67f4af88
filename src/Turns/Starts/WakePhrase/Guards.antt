-- ===== src/Turns/Starts/WakePhrase/Guards.antt =====
-- processor/turns/start.go: the state of WakePhraseStart between two calls.
use voxigo.Prelude.{
  ℕ, ◌+◌, ◌-◌, ◌≤◌, ◌≡◌, inl, inr, refl, ap, sym, Bool, true, false, not, ◌&&◌, Option, none, some,
  List, [], ◌∷◌, Text, arith, length, length-drop, Option-cases, Bool-cases,
}
use voxigo.Turns.Controller.{Trigger, started}
use voxigo.Turns.Timers
use voxigo.Turns.Timers.{only_timer, is_due, without}
use voxigo.Turns.Starts.WakePhrase.{
  Call, detected, timed_out, WakePhraseStart, refresh, turn_started, transition_to_idle, capped,
  wake_accum_limit, fall_asleep, on_timeout,
}

-- Whether the last callback was a detection, and whether detections and timeouts took turns.
abbrev pub last_detected : List Call → Bool
last_detected [] = false
last_detected (detected phrase ∷ cs) = true
last_detected (timed_out ∷ cs) = false

abbrev pub alternate : List Call → Bool
alternate [] = true
alternate (detected phrase ∷ cs) = not (last_detected cs) && alternate cs
alternate (timed_out ∷ cs) = last_detected cs && alternate cs

abbrev pub IsDueBy : Option (ℕ × ℕ) → ℕ → Type 0
IsDueBy none t = 0 ≤ t
IsDueBy (some timer) t = timer.1 ≤ t

abbrev is_armed : Option (ℕ × ℕ) → Bool
is_armed none = false
is_armed (some timer) = true

-- A timer runs, alone, exactly while the strategy is awake.
pub record Guarded (s : WakePhraseStart) : Type 0 where
  pub only : s.timers ≡ only_timer s.cancel_timer
  pub armed : is_armed s.cancel_timer ≡ s.awake
  pub soon : IsDueBy s.cancel_timer (s.now + s.timeout)
  pub short : length s.accum ≤ wake_accum_limit
  pub turns : alternate s.calls ≡ true
  pub last : last_detected s.calls ≡ s.awake

-- The controller's answer: a start that it accepts makes it call `TurnStarted`.
abbrev pub answer_with : Bool → Trigger → WakePhraseStart → WakePhraseStart
answer_with true (started interrupts announces) s = turn_started s
answer_with true _ s = s
answer_with false _ s = s

pub stopped-only :
    (o : Option (ℕ × ℕ)) (ts : List (ℕ × ℕ)) → ts ≡ only_timer o → Timers.stopped o ts ≡ []
stopped-only none ts e = e
stopped-only (some t) ts e = rw e (ground arith)

pub refresh-Guarded : (s : WakePhraseStart) → s.awake ≡ true → Guarded s → Guarded (refresh s)
unfolding refresh
refresh-Guarded s e h =
    let cleared : Timers.stopped s.cancel_timer s.timers ≡ [] =
      stopped-only s.cancel_timer s.timers h.only in
    record {
      only = ap (λ ts. (s.next_timer, s.now + s.timeout) ∷ ts) cleared;
      armed = sym e;
      soon = omega arith;
      short = h.short;
      turns = h.turns;
      last = h.last;
    }

pub turn_started-Guarded : (s : WakePhraseStart) → Guarded s → Guarded (turn_started s)
unfolding turn_started
turn_started-Guarded s h = elim (Bool-cases (s.awake && not s.single)) [
  | inl e ↦ rw e (refresh-Guarded s (ground arith) h)
  | inr e ↦ rw e h
]

pub on_timeout-Guarded : (n : ℕ) (s : WakePhraseStart) → Guarded s → Guarded (on_timeout n s)
unfolding on_timeout fall_asleep transition_to_idle wake_accum_limit
on_timeout-Guarded n s h = elim (Bool-cases (is_due n s.now s.timers)) [
  | inr e ↦ rw e h
  | inl e ↦ elim (Option-cases s.cancel_timer) [
    | inl none_left ↦ absurd (ground arith)
    | inr (t, at) ↦
        let awake : s.awake ≡ true = ground arith in
        let gone : without n s.timers ≡ [] = ground arith in
        rw (e, awake)
          (record {
            only = gone;
            armed = refl;
            soon = omega arith;
            short = omega arith;
            turns = ground arith;
            last = refl;
          })
  ]
]

pub capped-short : (t : Text) → length (capped t) ≤ wake_accum_limit
unfolding capped wake_accum_limit
capped-short t = ground (arith, length-drop (length t - wake_accum_limit) t)
