-- ===== src/Turns/Controller/Watchdog.antt =====
-- processor/turns/controller.go: the watchdog, over any strategies and any history.
use voxigo.Prelude.{
  Reach, Reach-keeps, ℕ, ◌≡◌, refl, ◌≢◌, ◌⊎◌, inl, inr, Bool, true, false, Option, none, some, List,
  [], ◌∷◌, arith, if-cases, not, ◌&&◌, exists_in, ◌==◌,
}
use voxigo.Frames.{Body}
use voxigo.Turns.Controller.{
  Place, start_at, stop_at, Trigger, started, reset_aggregation, inference_triggered, stopped, push,
  broadcast, Methods, Hook, started_hook, inference, stopped_hook, stop_timeout, Controller,
  new_controller, save, rearm_watchdog, call_hook, note_speech, notify_turn_started,
  notify_turn_stopped, on_start_triggered, on_inference_triggered, on_stop_triggered, on_watchdog,
  fire, on_trigger, SessionStep, processes, strategy_timer, fires, updates,
}
use voxigo.Turns.Controller.Runs.{note_speech-by, run_script-keeps, process-keeps}

-- The one timer that may still act is the one that the controller can cancel.
abbrev pub OnlyWatchdog {ℓ} : {S : Type ℓ} → Controller S → Type 0
OnlyWatchdog c = (c.running ≡ []) ⊎ ((n : ℕ) × (c.running ≡ n ∷ []) × (c.watchdog ≡ some n))

-- A turn that is open in silence has a timer to close it.
abbrev IsWatched {ℓ} : {S : Type ℓ} → Controller S → Type 0
IsWatched c = c.user_turn ≡ true → c.user_speaking ≡ false → c.running ≢ []

record Inv {ℓ} {S : Type ℓ} (c : Controller S) : Type 0 where
  only : OnlyWatchdog c
  watched : IsWatched c

module _ {ℓ} {S : Type ℓ} where
  rearm_watchdog-OnlyWatchdog :
      (c : Controller S) → OnlyWatchdog c → (rearm_watchdog c).running ≡ c.next_timer ∷ []
  unfolding rearm_watchdog
  rearm_watchdog-OnlyWatchdog c (inl e) = ground arith
  rearm_watchdog-OnlyWatchdog c (inr (n, e, w)) = ground arith

  rearm_watchdog-Inv : (c : Controller S) → OnlyWatchdog c → Inv (rearm_watchdog c)
  rearm_watchdog-Inv c o =
      let e = rearm_watchdog-OnlyWatchdog c o in
      record {
        only = inr (c.next_timer, e, unfold rearm_watchdog in refl);
        watched = λ t s n. ground arith;
      }

  -- Only the flags and the timers matter.
  moved :
      {c d : Controller S}
      → d.user_turn ≡ c.user_turn
      → d.user_speaking ≡ c.user_speaking
      → d.watchdog ≡ c.watchdog
      → d.running ≡ c.running
      → Inv c
      → Inv d
  moved t s w r h = record {
    only = ground (arith, h.only);
    watched = λ t' s' e. h.watched (ground arith) (ground arith) (ground arith);
  }

  save-Inv : (p : Place) (s : S) (c : Controller S) → Inv c → Inv (save p s c)
  save-Inv (start_at i) s c h = moved refl refl refl refl h
  save-Inv (stop_at i) s c h = moved refl refl refl refl h

  note_speech-Inv : (b : Body) (c : Controller S) → Inv c → Inv (note_speech b c)
  note_speech-Inv b c h =
      note_speech-by (λ b d. Inv d) b c h (rearm_watchdog-Inv c h.only)
        (λ v. rearm_watchdog-Inv _ h.only)

module _ {ℓ} {S : Type ℓ} (ops : Methods S) where
  started-Inv :
      (p : Place) (i s : Bool) (c : Controller S)
      → Inv c
      → Inv (
          call_hook
            (started_hook p i s)
            (notify_turn_started ops (rearm_watchdog (record c { user_turn = true }))))
  unfolding call_hook notify_turn_started
  started-Inv p i s c h =
      moved refl refl refl refl (rearm_watchdog-Inv (record c { user_turn = true }) h.only)

  stopped-Inv :
      (p : Option Place) (s : Bool) (c : Controller S)
      → OnlyWatchdog c
      → Inv (
          call_hook
            (stopped_hook p s)
            (notify_turn_stopped ops (rearm_watchdog (record c { user_turn = false }))))
  unfolding call_hook notify_turn_stopped
  stopped-Inv p s c o =
      moved refl refl refl refl (rearm_watchdog-Inv (record c { user_turn = false }) o)

  on_stop_triggered-by :
      (p : Option Place) (s : Bool) (c : Controller S)
      → OnlyWatchdog c
      → (c.user_turn ≡ false → Inv c)
      → (c.user_speaking ≡ true → Inv c)
      → Inv (on_stop_triggered ops p s c)
  unfolding on_stop_triggered
  on_stop_triggered-by p s c o no_turn speaks =
      if-cases (Inv {S = S}) (not c.user_turn) (λ e. no_turn (ground arith))
        (λ e. if-cases (Inv {S = S}) c.user_speaking speaks (λ _. stopped-Inv p s c o))

  called-Inv : (k : Hook) (c : Controller S) → Inv c → Inv (call_hook k c)
  unfolding call_hook
  called-Inv k c h = moved refl refl refl refl h

  on_trigger-Inv : (p : Place) (t : Trigger) (c : Controller S) → Inv c → Inv (on_trigger ops p t c)
  unfolding on_trigger on_start_triggered on_inference_triggered
  on_trigger-Inv p (started i s) c h =
      if-cases (Inv {S = S}) c.user_turn (λ _. h) (λ _. started-Inv p i s c h)
  on_trigger-Inv p reset_aggregation c h = called-Inv _ c h
  on_trigger-Inv p inference_triggered c h =
      if-cases (Inv {S = S}) c.user_turn
        (λ _. called-Inv (inference p) _ (rearm_watchdog-Inv c h.only)) (λ _. h)
  on_trigger-Inv p (stopped s) c h = on_stop_triggered-by (some p) s c h.only (λ _. h) (λ _. h)
  on_trigger-Inv p (push f dir) c h = called-Inv _ c h
  on_trigger-Inv p (broadcast b) c h = called-Inv _ c h

  on_watchdog-Inv : (c : Controller S) → c.running ≡ [] → Inv (on_watchdog ops c)
  unfolding on_watchdog call_hook
  on_watchdog-Inv c e =
      if-cases (Inv {S = S}) (c.user_turn && not c.user_speaking)
        (λ b.
          on_stop_triggered-by none true (call_hook stop_timeout c) (inl e)
            (λ t. absurd (ground arith)) (λ s. absurd (ground arith)))
        (λ b. record { only = inl e; watched = λ t s _. ground arith })

  fire-Inv : (n : ℕ) (c : Controller S) → Inv c → Inv (fire ops n c)
  unfolding fire
  fire-Inv n c h = elim h.only [
    | inl e ↦
        if-cases (Inv {S = S}) (exists_in (λ i. n == i) c.running)
          (λ b. on_watchdog-Inv _ (ground arith)) (λ _. h)
    | inr (m, e, w) ↦
        if-cases (Inv {S = S}) (exists_in (λ i. n == i) c.running)
          (λ b. on_watchdog-Inv _ (ground arith)) (λ _. h)
  ]

  SessionStep-Inv : {c d : Controller S} → SessionStep ops c d → Inv c → Inv d
  SessionStep-Inv (processes f) h =
      process-keeps ops Inv save-Inv on_trigger-Inv f _ (note_speech-Inv f.body _ h)
  SessionStep-Inv (strategy_timer p k s) h =
      run_script-keeps ops Inv save-Inv on_trigger-Inv p _ _ h
  SessionStep-Inv (fires n) h = fire-Inv n _ h
  SessionStep-Inv (updates ss es) h = moved refl refl refl refl h

  Session-Inv :
      (ss es : List S) {c : Controller S} → Reach (SessionStep ops) (new_controller ss es) c → Inv c
  unfolding new_controller
  Session-Inv ss es r =
      Reach-keeps (Inv {S = S}) (λ c d st. SessionStep-Inv st)
        (record { only = inl refl; watched = λ t s n. ground arith }) r

  -- No turn stays open in silence: as long as the session is not torn down, whenever a turn is
  -- open and the user is silent exactly one watchdog timer is running, and when it fires it
  -- reports the timeout and closes the turn.
  pub stuck_turn_ends :
      (ss es : List S) {c : Controller S}
      → Reach (SessionStep ops) (new_controller ss es) c
      → c.user_turn ≡ true
      → c.user_speaking ≡ false
      → (n : ℕ) × (c.running ≡ n ∷ [])
        × ((fire ops n c).user_turn ≡ false)
        × ((fire ops n c).hooks ≡ stopped_hook none true ∷ stop_timeout ∷ c.hooks)
  unfolding fire on_watchdog on_stop_triggered call_hook notify_turn_stopped rearm_watchdog
  stuck_turn_ends ss es {c} r t s =
      let inv = Session-Inv ss es r in
      elim inv.only [
        | inl none_running ↦ absurd (inv.watched t s none_running)
        | inr (n, e, w) ↦ (n, e, ground arith, ground arith)
      ]
