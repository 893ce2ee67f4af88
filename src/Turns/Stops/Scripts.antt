-- ===== src/Turns/Stops/Scripts.antt =====
-- processor/turns/strategy.go: what a stop strategy signals, and what the controller does to the
-- strategy in between.
use voxigo.Prelude.{Bool, true, false, List, [], ◌∷◌}
use voxigo.Turns.Controller.{Script, done, trigger, Trigger, inference_triggered, stopped, continue}

module _ {ℓ} {S : Type ℓ} where
  -- `TriggerStopped` or `TriggerStoppedOverriding` with the flag of `params`, and what follows.
  abbrev pub trigger_stopped : Bool → S → (S → Script S) → Script S
  trigger_stopped announces s k =
      trigger s inference_triggered (λ t. trigger t (stopped announces) k)

  -- The end of a `Process` or of a timer's callback.
  abbrev pub finish : S → Script S
  finish s = done s continue

  -- A strategy on its own: the state it ends with and what it signalled, where `answer` is what the
  -- controller does to it at each signal.
  abbrev pub outcome : (Trigger → S → S) → Script S → S × List Trigger
  outcome answer (done s r) = (s, [])
  outcome answer (trigger s t k) =
      let rest = outcome answer (k (answer t s)) in (rest.0, t ∷ rest.1)

  -- The controller's answer: a stop that it accepts makes it call `TurnStopped`.
  abbrev pub answer_with : Bool → (S → S) → Trigger → S → S
  answer_with true turn_stopped (stopped a) s = turn_stopped s
  answer_with true turn_stopped _ s = s
  answer_with false turn_stopped _ s = s
