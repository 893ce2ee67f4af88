-- ===== src/Turns/Controller/Guards.antt =====
-- processor/turns/controller.go: the guards of the turn, over any strategies and any history.
use voxigo.Prelude.{
  Reach, Reach-keeps, ℕ, ◌≡◌, refl, ap, ◌∙◌, suc, Bool, true, false, Option, none, some, List, [],
  ◌∷◌, arith,
}
use voxigo.Frames.{Frame, Body}
use voxigo.Turns.Controller.{
  Place, start_at, stop_at, Trigger, started, reset_aggregation, inference_triggered, stopped, push,
  broadcast, Methods, Hook, started_hook, stopped_hook, inference, stop_timeout, aggregation_reset,
  pushed, broadcasted, Controller, new_controller, save, rearm_watchdog, stop_controller, call_hook,
  note_speech, notify_turn_started, notify_turn_stopped, on_start_triggered, on_inference_triggered,
  on_stop_triggered, on_watchdog, fire, on_trigger, process, SessionStep, during, Step, processes,
  strategy_timer, fires, tears_down, updates,
}
use voxigo.Turns.Controller.Runs.{note_speech-by, run_script-keeps, process-keeps}

abbrev opens : Option Bool → Option Bool
opens (some false) = some true
opens (some true) = none
opens none = none

abbrev closes : Option Bool → Option Bool
closes (some true) = some false
closes (some false) = none
closes none = none

abbrev within : Option Bool → Option Bool
within (some true) = some true
within (some false) = none
within none = none

-- Reads the hooks called, the last one first: whether a turn is open after them, `none` when a
-- turn was opened inside a turn, or was closed, timed out or answered outside one.
abbrev pub turn_after : List Hook → Option Bool
turn_after [] = some false
turn_after (started_hook p i s ∷ hs) = opens (turn_after hs)
turn_after (stopped_hook p s ∷ hs) = closes (turn_after hs)
turn_after (inference p ∷ hs) = within (turn_after hs)
turn_after (stop_timeout ∷ hs) = within (turn_after hs)
turn_after (aggregation_reset p ∷ hs) = turn_after hs
turn_after (pushed f dir ∷ hs) = turn_after hs
turn_after (broadcasted b ∷ hs) = turn_after hs

module _ {ℓ} {S : Type ℓ} (ops : Methods S) where
  abbrev IsAlternating : Controller S → Type 0
  IsAlternating c = turn_after c.hooks ≡ some c.user_turn

  on_start_triggered-alternates :
      (p : Place) (i s : Bool) (c : Controller S)
      → IsAlternating c
      → IsAlternating (on_start_triggered ops p i s c)
  unfolding on_start_triggered call_hook notify_turn_started rearm_watchdog
  on_start_triggered-alternates p i s c h = ground arith

  on_inference_triggered-alternates :
      (p : Place) (c : Controller S)
      → IsAlternating c
      → IsAlternating (on_inference_triggered ops p c)
  unfolding on_inference_triggered call_hook rearm_watchdog
  on_inference_triggered-alternates p c h = ground arith

  on_stop_triggered-alternates :
      (p : Option Place) (s : Bool) (c : Controller S)
      → IsAlternating c
      → IsAlternating (on_stop_triggered ops p s c)
  unfolding on_stop_triggered call_hook notify_turn_stopped rearm_watchdog
  on_stop_triggered-alternates p s c h = ground arith

  on_trigger-alternates :
      (p : Place) (t : Trigger) (c : Controller S)
      → IsAlternating c
      → IsAlternating (on_trigger ops p t c)
  unfolding on_trigger call_hook
  on_trigger-alternates p (started i s) c h = on_start_triggered-alternates p i s c h
  on_trigger-alternates p reset_aggregation c h = h
  on_trigger-alternates p inference_triggered c h = on_inference_triggered-alternates p c h
  on_trigger-alternates p (stopped s) c h = on_stop_triggered-alternates (some p) s c h
  on_trigger-alternates p (push f dir) c h = h
  on_trigger-alternates p (broadcast b) c h = h

  save-alternates :
      (p : Place) (s : S) (c : Controller S) → IsAlternating c → IsAlternating (save p s c)
  save-alternates (start_at i) s c h = h
  save-alternates (stop_at i) s c h = h

  note_speech-alternates :
      (b : Body) (c : Controller S) → IsAlternating c → IsAlternating (note_speech b c)
  unfolding rearm_watchdog
  note_speech-alternates b c h = note_speech-by (λ b c. IsAlternating c) b c h h (λ v. h)

  fire-alternates : (n : ℕ) (c : Controller S) → IsAlternating c → IsAlternating (fire ops n c)
  unfolding fire on_watchdog on_stop_triggered call_hook notify_turn_stopped rearm_watchdog
  fire-alternates n c h = ground arith

  SessionStep-alternates :
      {c d : Controller S} → SessionStep ops c d → IsAlternating c → IsAlternating d
  SessionStep-alternates (processes f) h =
      process-keeps ops IsAlternating save-alternates on_trigger-alternates f _
        (note_speech-alternates f.body _ h)
  SessionStep-alternates (strategy_timer p k s) h =
      run_script-keeps ops IsAlternating save-alternates on_trigger-alternates p _ _ h
  SessionStep-alternates (fires n) h = fire-alternates n _ h
  SessionStep-alternates (updates ss es) h = h

  Step-alternates : {c d : Controller S} → Step ops c d → IsAlternating c → IsAlternating d
  unfolding stop_controller
  Step-alternates (during st) h = SessionStep-alternates st h
  Step-alternates tears_down h = h

  -- Whatever strategies drive a controller and whatever happens to it, the turns it reports
  -- alternate: a turn is opened only when none is open, closed, timed out or answered only when
  -- one is, and the controller's flag says which.
  pub turns_alternate :
      (starts stops : List S) {c : Controller S}
      → Reach (Step ops) (new_controller starts stops) c
      → turn_after c.hooks ≡ some c.user_turn
  unfolding new_controller
  turns_alternate ss es r = Reach-keeps IsAlternating (λ c d st. Step-alternates st) refl r

-- How many turns were closed.
abbrev pub closings : List Hook → ℕ
closings [] = 0
closings (stopped_hook p s ∷ hs) = suc (closings hs)
closings (_ ∷ hs) = closings hs

module _ {ℓ} {S : Type ℓ} (ops : Methods S) (n : ℕ) (open_turn : Bool) where
  -- The user speaks, `n` turns were closed, and the turn that was open still is.
  abbrev IsHeld : Controller S → Type 0
  IsHeld c =
      (c.user_speaking ≡ true) × (closings c.hooks ≡ n) × (open_turn ≡ true → c.user_turn ≡ true)

  on_trigger-IsHeld :
      (p : Place) (t : Trigger) (c : Controller S) → IsHeld c → IsHeld (on_trigger ops p t c)
  unfolding on_trigger on_start_triggered on_inference_triggered on_stop_triggered call_hook
      notify_turn_started notify_turn_stopped rearm_watchdog
  on_trigger-IsHeld p (started i s) c h = ground arith
  on_trigger-IsHeld p reset_aggregation c h = h
  on_trigger-IsHeld p inference_triggered c h = ground arith
  on_trigger-IsHeld p (stopped s) c h = ground arith
  on_trigger-IsHeld p (push f dir) c h = h
  on_trigger-IsHeld p (broadcast b) c h = h

  save-IsHeld : (p : Place) (s : S) (c : Controller S) → IsHeld c → IsHeld (save p s c)
  save-IsHeld (start_at i) s c h = h
  save-IsHeld (stop_at i) s c h = h

  process-IsHeld :
      (f : Frame) (c : Controller S) → IsHeld (note_speech f.body c) → IsHeld (process ops f c)
  process-IsHeld f c h = process-keeps ops IsHeld save-IsHeld on_trigger-IsHeld f c h

module _ {ℓ} {S : Type ℓ} (ops : Methods S) where
  note_speech-hooks :
      (b : Body) (c : Controller S)
      → ((note_speech b c).hooks ≡ c.hooks) × ((note_speech b c).user_turn ≡ c.user_turn)
  unfolding rearm_watchdog
  note_speech-hooks b c =
      note_speech-by (λ b d. (d.hooks ≡ c.hooks) × (d.user_turn ≡ c.user_turn)) b c (refl, refl)
        (refl, refl) (λ v. (refl, refl))

  -- While the user is audibly speaking no turn is closed: when a frame leaves the user speaking,
  -- whatever the strategies decide on it, they close no turn and an open turn stays open.
  pub speaking_holds_turn :
      (f : Frame) (c : Controller S)
      → (note_speech f.body c).user_speaking ≡ true
      → (closings (process ops f c).hooks ≡ closings c.hooks)
        × (c.user_turn ≡ true → (process ops f c).user_turn ≡ true)
  speaking_holds_turn f c h =
      let same = note_speech-hooks f.body c in
      let held =
        process-IsHeld ops (closings c.hooks) c.user_turn f c
          (h, ap closings (same.0), λ o. same.1 ∙ o) in
      (held.1, held.2)
