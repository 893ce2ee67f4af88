-- ===== src/Turns/Starts/WakePhrase/Window.antt =====
-- processor/turns/start.go: the window in which WakePhraseStart stays awake, in a session.
use mathlib.Core.Path.{subst}
use voxigo.Prelude.{
  Reach, Reach-keeps, ℕ, ◌+◌, ◌≤◌, ◌≡◌, inl, inr, refl, ap, ◌∙◌, Bool, true, false, not, ◌&&◌,
  Option, none, some, List, [], ◌∷◌, ◌++◌, Text, arith, length, Option-cases, Bool-cases,
}
use voxigo.Frames.{Body, transcription}
use voxigo.Turns.Controller.{Trigger}
use voxigo.Turns.Timers
use voxigo.Turns.Timers.{only_timer, is_due, without}
use voxigo.Turns.Stops.Scripts.{outcome}
use voxigo.Turns.Starts.WakePhrase.{
  Pattern, timed_out, WakePhraseStart, new_wake_phrase_start, refresh, turn_started,
  transition_to_awake, transition_to_idle, capped, wake_accum_limit, first_match, woken,
  after_check, is_activity, process_awake, fall_asleep, on_timeout, check_wake_phrase, process_when,
  process_idle, process_when, process_body,
}
use voxigo.Turns.Starts.WakePhrase.Guards.{
  IsDueBy, Guarded, answer_with, stopped-only, refresh-Guarded, turn_started-Guarded,
  on_timeout-Guarded, capped-short,
}

-- What waking up or not leaves, where the accumulator is `heard`.
woken-Guarded :
    (phrase : Option Text) (s : WakePhraseStart)
    → s.awake ≡ false
    → Guarded s
    → Guarded (woken phrase s).0
unfolding transition_to_awake refresh wake_accum_limit
woken-Guarded none s e h = h
woken-Guarded (some phrase) s e h =
    let cleared : Timers.stopped s.cancel_timer s.timers ≡ [] =
      stopped-only s.cancel_timer s.timers h.only in
    record {
      only = ap (λ ts. (s.next_timer, s.now + s.timeout) ∷ ts) cleared;
      armed = refl;
      soon = omega arith;
      short = omega arith;
      turns = ground arith;
      last = refl;
    }

after_check-Guarded :
    (taken : Bool) (r : WakePhraseStart × Bool)
    → Guarded r.0
    → Guarded (outcome (answer_with taken) (after_check r)).0
after_check-Guarded true (s, true) h = turn_started-Guarded s h
after_check-Guarded true (s, false) h = h
after_check-Guarded false (s, true) h = h
after_check-Guarded false (s, false) h = h

process_awake-Guarded :
    (b : Body) (taken : Bool) (s : WakePhraseStart)
    → s.awake ≡ true
    → Guarded s
    → Guarded (outcome (answer_with taken) (process_awake b s)).0
unfolding process_awake
process_awake-Guarded b taken s e h = elim (Bool-cases (not s.single && is_activity b)) [
  | inl active ↦ rw active (refresh-Guarded s e h)
  | inr other ↦ rw other h
]

abbrev pub later : ℕ → WakePhraseStart → WakePhraseStart
later d s = record s { now = d }

passes-due :
    (o : Option (ℕ × ℕ)) (now timeout d : ℕ)
    → IsDueBy o (now + timeout)
    → IsDueBy o ((now + d) + timeout)
passes-due none now timeout d h = omega arith
passes-due (some t) now timeout d h = omega arith

-- What the timer of an awake strategy does once it is due.
abbrev pub FallsAsleep : WakePhraseStart → ℕ × ℕ → ℕ → Type 0
FallsAsleep s t d =
    let u = on_timeout t.0 (later d s) in
    (u.awake ≡ false) × (u.calls ≡ timed_out ∷ s.calls) × (u.accum ≡ []) × (u.timers ≡ [])

timer-closes :
    (s : WakePhraseStart) (t : ℕ × ℕ) (d : ℕ)
    → s.timers ≡ t ∷ []
    → s.awake ≡ true
    → t.1 ≤ d
    → FallsAsleep s t d
unfolding on_timeout fall_asleep transition_to_idle
timer-closes s t d at awake due =
    let e : is_due t.0 d s.timers ≡ true = rw at (ground arith) in
    let gone : without t.0 s.timers ≡ [] = rw at (ground arith) in
    rw (e, awake) (refl, refl, refl, gone)

awake-closes :
    (s : WakePhraseStart)
    → Guarded s
    → s.awake ≡ true
    → (t : ℕ × ℕ) × (s.timers ≡ t ∷ [])
      × (t.1 ≤ s.now + s.timeout)
      × ((d : ℕ) → t.1 ≤ d → FallsAsleep s t d)
awake-closes s h awake = elim (Option-cases s.cancel_timer) [
  | inl e ↦ absurd (ground arith)
  | inr (t, e) ↦
      let at : s.timers ≡ t ∷ [] = h.only ∙ ap only_timer e in
      let soon : t.1 ≤ s.now + s.timeout = subst (λ o. IsDueBy o (s.now + s.timeout)) e h.soon in
      (t, at, soon, λ d due. timer-closes s t d at awake due)
]

asleep-quiet : (s : WakePhraseStart) → Guarded s → s.awake ≡ false → s.timers ≡ []
asleep-quiet s h asleep = elim (Option-cases s.cancel_timer) [
  | inl e ↦ h.only ∙ ap only_timer e
  | inr (t, e) ↦ absurd (ground arith)
]

module _ (strip_punctuation : Text → Text) where
  abbrev pub happens : Body → Bool → WakePhraseStart → WakePhraseStart × List Trigger
  happens b taken s = outcome (answer_with taken) (process_body strip_punctuation b s)

  -- A session; the controller may start a turn for another strategy.
  pub data Step (s : WakePhraseStart) : WakePhraseStart → Type 0 where
    acts : (b : Body) (taken : Bool) → Step s (happens b taken s).0
    runs_out : (n : ℕ) → Step s (on_timeout n s)
    starts_turn : Step s (turn_started s)
    passes : (d : ℕ) → Step s (later (s.now + d) s)

  process_idle-Guarded :
      (b : Body) (taken : Bool) (s : WakePhraseStart)
      → s.awake ≡ false
      → Guarded s
      → Guarded (outcome (answer_with taken) (process_idle strip_punctuation b s)).0
  unfolding process_idle check_wake_phrase
  process_idle-Guarded (transcription text final) taken s e h =
      let heard = capped (s.accum ++ 32 ∷ strip_punctuation text) in
      let s' = record s { accum = heard } in
      let h' : Guarded s' = record {
        only = h.only;
        armed = h.armed;
        soon = h.soon;
        short = capped-short (s.accum ++ 32 ∷ strip_punctuation text);
        turns = h.turns;
        last = h.last;
      } in
      after_check-Guarded taken (woken (first_match heard s.patterns) s')
        (woken-Guarded (first_match heard s.patterns) s' e h')
  process_idle-Guarded _ taken s e h = h

  process_when-Guarded :
      (awake : Bool) (b : Body) (taken : Bool) (s : WakePhraseStart)
      → s.awake ≡ awake
      → Guarded s
      → Guarded (outcome (answer_with taken) (process_when strip_punctuation awake b s)).0
  unfolding process_when
  process_when-Guarded true b taken s e h = process_awake-Guarded b taken s e h
  process_when-Guarded false b taken s e h = process_idle-Guarded b taken s e h

  Step-Guarded : (s t : WakePhraseStart) → Step s t → Guarded s → Guarded t
  unfolding process_body
  Step-Guarded s t (acts b taken) h = process_when-Guarded s.awake b taken s refl h
  Step-Guarded s t (runs_out n) h = on_timeout-Guarded n s h
  Step-Guarded s t starts_turn h = turn_started-Guarded s h
  Step-Guarded s t (passes d) h = record {
    only = h.only;
    armed = h.armed;
    soon = passes-due s.cancel_timer s.now s.timeout d h.soon;
    short = h.short;
    turns = h.turns;
    last = h.last;
  }

  pub reachable-Guarded :
      (patterns : List Pattern) (timeout : ℕ) (single : Bool) (s : WakePhraseStart)
      → Reach Step (new_wake_phrase_start patterns timeout single) s
      → Guarded s
  unfolding new_wake_phrase_start wake_accum_limit
  reachable-Guarded patterns timeout single s run =
      Reach-keeps Guarded (λ u v step h. Step-Guarded u v step h)
        (record {
          only = refl;
          armed = refl;
          soon = omega arith;
          short = omega arith;
          turns = refl;
          last = refl;
        })
        run

  -- The window closes: while the strategy is awake exactly one timer runs, it is due no later than
  -- the timeout from now, and when it goes off, once due, the strategy is asleep, says so once, has
  -- forgotten what it heard and has no timer left. Asleep, no timer runs. What it keeps of the
  -- speech is never longer than the limit.
  pub window_closes :
      (patterns : List Pattern) (timeout : ℕ) (single : Bool) (s : WakePhraseStart)
      → Reach Step (new_wake_phrase_start patterns timeout single) s
      → ((s.awake ≡ true)
          → (t : ℕ × ℕ) × (s.timers ≡ t ∷ [])
            × (t.1 ≤ s.now + s.timeout)
            × ((d : ℕ) → t.1 ≤ d → FallsAsleep s t d))
        × ((s.awake ≡ false) → s.timers ≡ [])
        × (length s.accum ≤ wake_accum_limit)
  window_closes patterns timeout single s run =
      let h = reachable-Guarded patterns timeout single s run in
      (awake-closes s h, asleep-quiet s h, h.short)
