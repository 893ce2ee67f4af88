-- ===== src/Turns/Timers.antt =====
-- processor/turns/strategy.go: `after`, the timers of the strategies and of the idle controller. A
-- timer is its number with what is known of it; it is in the list while its callback has neither
-- run nor been stopped.
use voxigo.Prelude.{
  ℕ, Bool, not, ◌&&◌, Option, none, some, List, [], ◌∷◌, keep_if, exists_in, ◌==◌, leb,
}

module _ {ℓ} {A : Type ℓ} where
  abbrev pub without : ℕ → List (ℕ × A) → List (ℕ × A)
  without n ts = keep_if (λ (t : ℕ × A). not (n == t.0)) ts

  abbrev pub is_running : ℕ → List (ℕ × A) → Bool
  is_running n ts = exists_in (λ (t : ℕ × A). n == t.0) ts

  -- What calling a cancel closure leaves; `none` is a nil closure.
  abbrev pub stopped : Option (ℕ × A) → List (ℕ × A) → List (ℕ × A)
  stopped none ts = ts
  stopped (some t) ts = without t.0 ts

  -- The timers, where the one that can be stopped is the only one.
  abbrev pub only_timer : Option (ℕ × A) → List (ℕ × A)
  only_timer none = []
  only_timer (some t) = t ∷ []

-- A timer that is due at `t.1` may go off.
abbrev pub is_due : ℕ → ℕ → List (ℕ × ℕ) → Bool
is_due n now ts = exists_in (λ (t : ℕ × ℕ). n == t.0 && leb t.1 now) ts
