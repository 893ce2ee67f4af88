-- ===== src/Turns/Starts/WakePhrase/Examples.antt =====
-- processor/turns/start.go: a session woken by its phrase.
use voxigo.Prelude.{
  Reach, here, next, ◌≡◌, ◌≤◌, ◌+◌, ℕ, refl, true, false, List, [], ◌∷◌, Text, bytes, contains,
  length, keep_if, not, ◌==◌, ◌||◌,
}
use voxigo.Prelude.Bytes
use voxigo.Frames.{transcription}
use voxigo.Turns.Starts.WakePhrase.{
  Pattern, WakePhraseStart, new_wake_phrase_start, wake_accum_limit, capped, process_body, detected,
  turn_started,
}
use voxigo.Turns.Starts.WakePhrase.Window.{Step, acts, happens, FallsAsleep, window_closes}

abbrev strip : Text → Text
strip t = keep_if (λ c. not (c == 44 || c == 33)) t

abbrev patterns : List Pattern
patterns = record { phrase = bytes "hey"; matches = λ t. contains t (bytes "hey") } ∷ []

abbrev asleep : WakePhraseStart
asleep = new_wake_phrase_start patterns 5 false

abbrev woken : WakePhraseStart
woken = (happens strip (transcription (bytes "h,ey!") true) true asleep).0

wakes : woken.calls ≡ detected (bytes "hey") ∷ []
unfolding process_body new_wake_phrase_start capped Bytes.contains turn_started
wakes = refl

woken_run : Reach (Step strip) asleep woken
woken_run = next here (acts (transcription (bytes "h,ey!") true) true)

window_closes_example :
    ((woken.awake ≡ true)
      → (t : ℕ × ℕ) × (woken.timers ≡ t ∷ [])
        × (t.1 ≤ woken.now + woken.timeout)
        × ((d : ℕ) → t.1 ≤ d → FallsAsleep woken t d))
    × ((woken.awake ≡ false) → woken.timers ≡ [])
    × (length woken.accum ≤ wake_accum_limit)
window_closes_example = window_closes strip patterns 5 false woken woken_run
