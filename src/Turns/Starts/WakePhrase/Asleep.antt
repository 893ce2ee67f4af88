-- ===== src/Turns/Starts/WakePhrase/Asleep.antt =====
-- processor/turns/start.go: what WakePhraseStart holds back.
use voxigo.Prelude.{◌≡◌, Bool, true, false, not, ◌&&◌, List, exists_in, if◌then◌else◌}
use voxigo.Turns.Controller.{Script, done, trigger, Trigger, started, Result, continue, stop}
use voxigo.Turns.Stops.Scripts.{outcome}
use voxigo.Turns.Starts.WakePhrase.{WakePhraseStart}
use voxigo.Turns.Starts.WakePhrase.Guards.{answer_with}

-- What a script ends with.
abbrev pub result_of {ℓ} : {S : Type ℓ} → (Trigger → S → S) → Script S → Result
result_of answer (done s r) = r
result_of answer (trigger s t k) = result_of answer (k (answer t s))

abbrev is_start : Trigger → Bool
is_start (started interrupts announces) = true
is_start _ = false

-- Whether a turn is asked for.
abbrev pub asks_for_turn : List Trigger → Bool
asks_for_turn ts = exists_in is_start ts

-- A script that lets the chain run only if `lets`, and asks for a turn only if it wakes.
abbrev pub Holds : Bool → Bool → Script WakePhraseStart → Type 0
Holds lets taken r =
    let after = outcome (answer_with taken) r in
    (result_of (answer_with taken) r ≡ (if lets then continue else stop))
    × (asks_for_turn after.1 ≡ (not lets && after.0.awake))
