-- ===== src/Turns/Controller.antt =====
-- processor/turns/controller.go: the user-turn state machine. A strategy is an object of type `S`:
-- its state, whose methods are a parameter. What a strategy does while the lock is held is a
-- script, which stops at each callback into the controller with the state it has by then, and
-- goes on with the state that the callback left.
pub mod Runs
pub mod Guards
pub mod Watchdog
mod Examples
use voxigo.Prelude.{
  ℕ, zero, suc, Bool, true, false, not, ◌&&◌, Option, none, some, List, [], ◌∷◌, map, if◌then◌else◌,
  keep_if, exists_in, ◌==◌,
}
use voxigo.Frames.{
  Frame, Body, Direction, user_started_speaking, proposed_user_started_speaking,
  vad_user_started_speaking, user_stopped_speaking, proposed_user_stopped_speaking,
  vad_user_stopped_speaking, transcription, interim_transcription,
}

pub data Result : Type 0 where
  continue stop : Result

-- Where a strategy stands in its chain.
pub data Place : Type 0 where
  start_at stop_at : ℕ → Place

-- The callbacks of a strategy's environment.
pub data Trigger : Type 0 where
  -- EnableInterruptions, EnableUserSpeakingFrames
  started : Bool → Bool → Trigger
  reset_aggregation inference_triggered : Trigger
  -- EnableUserSpeakingFrames
  stopped : Bool → Trigger
  push : Frame → Direction → Trigger
  broadcast : Body → Trigger

pub data Script {ℓ} (S : Type ℓ) : Type ℓ where
  done : S → Result → Script S
  trigger : S → Trigger → (S → Script S) → Script S

pub record Methods {ℓ} (S : Type ℓ) : Type ℓ where
  pub process : Frame → S → Script S
  pub turn_started : S → S
  pub turn_stopped : S → S

-- The hooks that the controller calls, with the strategy that decided.
pub data Hook : Type 0 where
  started_hook : Place → Bool → Bool → Hook
  stopped_hook : Option Place → Bool → Hook
  inference : Place → Hook
  stop_timeout : Hook
  aggregation_reset : Place → Hook
  pushed : Frame → Direction → Hook
  broadcasted : Body → Hook

-- `running` are the watchdog timers whose callback has neither run nor been stopped, `watchdog`
-- the timer that `watchdogCancel` stops; `hooks` are the hooks called, the last one first.
pub record Controller {ℓ} (S : Type ℓ) : Type ℓ where
  pub starts : List S
  pub stops : List S
  pub user_speaking : Bool
  pub user_turn : Bool
  pub watchdog : Option ℕ
  pub running : List ℕ
  pub next_timer : ℕ
  pub hooks : List Hook

unfoldable pub new_controller {ℓ} : {S : Type ℓ} → List S → List S → Controller S
new_controller ss es = record {
  starts = ss;
  stops = es;
  user_speaking = false;
  user_turn = false;
  watchdog = none;
  running = [];
  next_timer = 0;
  hooks = [];
}

abbrev pub remove : ℕ → List ℕ → List ℕ
remove n ns = keep_if (λ i. not (n == i)) ns

abbrev cancelled : Option ℕ → List ℕ → List ℕ
cancelled none ns = ns
cancelled (some n) ns = remove n ns

abbrev set_at {ℓ} : {S : Type ℓ} → ℕ → S → List S → List S
set_at i s [] = []
set_at zero s (x ∷ xs) = s ∷ xs
set_at (suc i) s (x ∷ xs) = x ∷ set_at i s xs

-- The object at a place, which has not moved.
abbrev state_at {ℓ} : {S : Type ℓ} → ℕ → S → List S → S
state_at i s [] = s
state_at zero s (x ∷ xs) = x
state_at (suc i) s (x ∷ xs) = state_at i s xs

module _ {ℓ} {S : Type ℓ} where
  unfoldable pub rearm_watchdog : Controller S → Controller S
  rearm_watchdog c = record c {
    watchdog = some c.next_timer;
    running = c.next_timer ∷ cancelled c.watchdog c.running;
    next_timer = suc c.next_timer;
  }

  -- `Stop`.
  unfoldable pub stop_controller : Controller S → Controller S
  stop_controller c = record c { watchdog = none; running = cancelled c.watchdog c.running }

  unfoldable pub call_hook : Hook → Controller S → Controller S
  call_hook h c = record c { hooks = h ∷ c.hooks }

  -- What a strategy leaves of itself, and what it finds of itself later.
  abbrev pub save : Place → S → Controller S → Controller S
  save (start_at i) s c = record c { starts = set_at i s c.starts }
  save (stop_at i) s c = record c { stops = set_at i s c.stops }

  abbrev pub load : Place → S → Controller S → S
  load (start_at i) s c = state_at i s c.starts
  load (stop_at i) s c = state_at i s c.stops

  -- The switch that opens `Process`.
  unfoldable pub note_speech : Body → Controller S → Controller S
  note_speech user_started_speaking c = rearm_watchdog (record c { user_speaking = true })
  note_speech proposed_user_started_speaking c = rearm_watchdog (record c { user_speaking = true })
  note_speech (vad_user_started_speaking w) c = rearm_watchdog (record c { user_speaking = true })
  note_speech user_stopped_speaking c = rearm_watchdog (record c { user_speaking = false })
  note_speech proposed_user_stopped_speaking c = rearm_watchdog (record c { user_speaking = false })
  note_speech (vad_user_stopped_speaking w ts) c =
      rearm_watchdog (record c { user_speaking = false })
  note_speech (transcription t final) c = rearm_watchdog c
  note_speech (interim_transcription t) c = rearm_watchdog c
  note_speech _ c = c

-- Whether the chain goes on.
abbrev pub go_on {ℓ} : {S : Type ℓ} → Result → Controller S → Controller S → Controller S
go_on stop c rest = c
go_on continue c rest = rest

module _ {ℓ} {S : Type ℓ} (ops : Methods S) where
  unfoldable pub notify_turn_started : Controller S → Controller S
  notify_turn_started c = record c {
    starts = map ops.turn_started c.starts;
    stops = map ops.turn_started c.stops;
  }

  unfoldable pub notify_turn_stopped : Controller S → Controller S
  notify_turn_stopped c = record c {
    starts = map ops.turn_stopped c.starts;
    stops = map ops.turn_stopped c.stops;
  }

  unfoldable pub on_start_triggered : Place → Bool → Bool → Controller S → Controller S
  on_start_triggered p interrupts speaks c =
      if c.user_turn
      then c
      else call_hook (started_hook p interrupts speaks)
          (notify_turn_started (rearm_watchdog (record c { user_turn = true })))

  unfoldable pub on_inference_triggered : Place → Controller S → Controller S
  on_inference_triggered p c = if c.user_turn then call_hook (inference p) (rearm_watchdog c) else c

  unfoldable pub on_stop_triggered : Option Place → Bool → Controller S → Controller S
  on_stop_triggered p speaks c =
      if not c.user_turn
      then c
      else if c.user_speaking
      then c
      else call_hook (stopped_hook p speaks)
          (notify_turn_stopped (rearm_watchdog (record c { user_turn = false })))

  unfoldable pub on_watchdog : Controller S → Controller S
  on_watchdog c =
      if c.user_turn && not c.user_speaking
      then on_stop_triggered none true (call_hook stop_timeout c)
      else c

  -- The callback of a watchdog timer.
  unfoldable pub fire : ℕ → Controller S → Controller S
  fire n c =
      if exists_in (λ i. n == i) c.running
      then on_watchdog (record c { running = remove n c.running })
      else c

  unfoldable pub on_trigger : Place → Trigger → Controller S → Controller S
  on_trigger p (started interrupts speaks) c = on_start_triggered p interrupts speaks c
  on_trigger p reset_aggregation c = call_hook (aggregation_reset p) c
  on_trigger p inference_triggered c = on_inference_triggered p c
  on_trigger p (stopped speaks) c = on_stop_triggered (some p) speaks c
  on_trigger p (push f dir) c = call_hook (pushed f dir) c
  on_trigger p (broadcast b) c = call_hook (broadcasted b) c

  unfoldable pub run_script : Place → Script S → Controller S → Controller S × Result
  run_script p (done s r) c = (save p s c, r)
  run_script p (trigger s t k) c =
      let c' = on_trigger p t (save p s c) in run_script p (k (load p s c')) c'

  -- The range over a chain, from its `i`-th strategy on.
  unfoldable pub chain : (ℕ → Place) → Frame → List S → ℕ → Controller S → Controller S
  chain place f [] i c = c
  chain place f (s ∷ ss) i c =
      let ran = run_script (place i) (ops.process f (load (place i) s c)) c in
      let rest = chain place f ss (suc i) ran.0 in go_on ran.1 ran.0 rest

  unfoldable pub process : Frame → Controller S → Controller S
  process f c =
      let noted = note_speech f.body c in
      let opened = chain start_at f noted.starts 0 noted in chain stop_at f opened.stops 0 opened

  -- All that happens under the lock during a session: a frame, a timer of a strategy, a timer of
  -- the watchdog, and a change of the strategies.
  pub data SessionStep (c : Controller S) : Controller S → Type ℓ where
    processes : (f : Frame) → SessionStep c (process f c)
    strategy_timer :
        (p : Place) (k : S → Script S) (s : S) → SessionStep c ((run_script p (k (load p s c)) c).0)
    fires : (n : ℕ) → SessionStep c (fire n c)
    updates : (ss es : List S) → SessionStep c (record c { starts = ss; stops = es })

  -- With the end of the session.
  pub data Step (c : Controller S) : Controller S → Type ℓ where
    during : {d : Controller S} → SessionStep c d → Step c d
    tears_down : Step c (stop_controller c)
