-- ===== src/Turns/Stops/External/Retry.antt =====
-- processor/turns/stop.go: that ExternalStop tries again until the turn has ended.
use voxigo.Prelude.{
  Reach, Reach-keeps, ℕ, ◌+◌, ◌≤◌, ◌≡◌, inl, inr, Bool, true, false, not, ◌||◌, ◌&&◌, Option, none,
  some, List, [], ◌∷◌, arith, if◌then◌else◌, Option-cases,
}
use voxigo.Frames.{
  Body, proposed_user_started_speaking, proposed_user_stopped_speaking, user_started_speaking,
  user_stopped_speaking, transcription, interim_transcription,
}
use voxigo.Turns.Controller.{Trigger, inference_triggered, stopped}
use voxigo.Turns.Timers.{only_timer}
use voxigo.Turns.Stops.Scripts.{outcome, answer_with}
use voxigo.Turns.Stops.SpeechTimeout.{is_empty}
use voxigo.Turns.Stops.External.{
  ExternalStop, new_external_stop, set_up, turn_started, turn_stopped, handle_stopped_speaking,
  process_body, on_tick, Event, frame, tick, act,
}

abbrev pub happens : Event → Bool → ExternalStop → ExternalStop × List Trigger
happens e taken s = outcome (answer_with taken turn_stopped) (act e s)

-- A session from the setup to the cleanup.
pub data Step (s : ExternalStop) : ExternalStop → Type 0 where
  acts : (e : Event) (taken : Bool) → Step s (happens e taken s).0
  starts_turn : Step s (turn_started s)
  stops_turn : Step s (turn_stopped s)
  passes : (d : ℕ) → Step s (record s { now = s.now + d })

abbrev DueBy : Option (ℕ × ℕ) → ℕ → Type 0
DueBy none t = ⊥
DueBy (some timer) t = timer.1 ≤ t

-- The retry timer runs, alone, and is due within its period.
pub record Ticks (s : ExternalStop) : Type 0 where
  pub only : s.timers ≡ only_timer s.cancel_timer
  pub soon : DueBy s.cancel_timer (s.now + s.timeout)

frame-Ticks :
    (b : Body) (taken : Bool) (s : ExternalStop) → Ticks s → Ticks (happens (frame b) taken s).0
unfolding act process_body handle_stopped_speaking turn_stopped
frame-Ticks proposed_user_started_speaking taken s h = ground arith
frame-Ticks proposed_user_stopped_speaking true s h = ground arith
frame-Ticks proposed_user_stopped_speaking false s h = ground arith
frame-Ticks user_started_speaking taken s h = ground arith
frame-Ticks user_stopped_speaking true s h = ground arith
frame-Ticks user_stopped_speaking false s h = ground arith
frame-Ticks (interim_transcription text) taken s h = ground arith
frame-Ticks (transcription text finalized) taken s h = ground arith
frame-Ticks _ taken s h = h

tick-Ticks :
    (n : ℕ) (taken : Bool) (s : ExternalStop) → Ticks s → Ticks (happens (tick n) taken s).0
unfolding act on_tick turn_stopped
tick-Ticks n true s h = ground arith
tick-Ticks n false s h = ground arith

Step-Ticks : (s t : ExternalStop) → Step s t → Ticks s → Ticks t
unfolding turn_started turn_stopped
Step-Ticks s t (acts (frame b) taken) h = frame-Ticks b taken s h
Step-Ticks s t (acts (tick n) taken) h = tick-Ticks n taken s h
Step-Ticks s t starts_turn h = ground arith
Step-Ticks s t stops_turn h = ground arith
Step-Ticks s t (passes d) h = ground arith

abbrev pub later : ℕ → ExternalStop → ExternalStop
later d s = record s { now = d }

-- A turn whose end was announced elsewhere is not announced again.
abbrev pub ends_turn : ExternalStop → List Trigger
ends_turn s = inference_triggered ∷ stopped (not s.announced_elsewhere && s.announces) ∷ []

-- Whether the transcript that is awaited is in.
abbrev pub is_heard : ExternalStop → Bool
is_heard s = not s.wait_for_tx || (not s.seen_interim && not (is_empty s.text))

tick-ends :
    (t : ℕ × ℕ) (d : ℕ) (taken : Bool) (s : ExternalStop)
    → s.timers ≡ t ∷ []
    → s.turn_open ≡ true
    → t.1 ≤ d
    → (happens (tick t.0) taken (later d s)).1
      ≡ (if not s.user_speaking && is_heard s then ends_turn s else [])
unfolding act on_tick
tick-ends t d true s r o l = ground arith
tick-ends t d false s r o l = ground arith

timer_of :
    (s : ExternalStop) → Ticks s → (t : ℕ × ℕ) × (s.timers ≡ t ∷ []) × (t.1 ≤ s.now + s.timeout)
timer_of s h = elim (Option-cases s.cancel_timer) [
  | inl e ↦ ground arith
  | inr (t, e) ↦ (t, ground arith, ground arith)
]

-- A stop is never forgotten: in every session, while a turn is open, the retry timer runs, alone,
-- and is due within its period. When it goes off after the period, it ends the turn exactly if the
-- user does not speak and, where a transcript is awaited, text is in with no interim result after
-- it; the end is announced unless it was announced elsewhere.
pub open_turn_is_retried :
    (period : ℕ) (wait : Option Bool) (s : ExternalStop) (taken : Bool) (d : ℕ)
    → Reach Step (set_up (new_external_stop period wait)) s
    → s.turn_open ≡ true
    → s.now + s.timeout ≤ d
    → (t : ℕ × ℕ) × (s.timers ≡ t ∷ [])
      × (t.1 ≤ s.now + s.timeout)
      × ((happens (tick t.0) taken (later d s)).1
          ≡ (if not s.user_speaking && is_heard s then ends_turn s else []))
unfolding set_up new_external_stop
open_turn_is_retried period wait s taken d run opened l =
    let (t, only, soon) = timer_of s (Reach-keeps Ticks Step-Ticks (ground arith) run) in
    (t, only, soon, tick-ends t d taken s only opened (omega arith))
