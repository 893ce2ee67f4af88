-- ===== src/Turns/Starts/Examples.antt =====
-- processor/turns/start.go: a caller who says "uh" and then interrupts.
use voxigo.Prelude.{ℕ, ◌≡◌, refl, true, false, none, List, [], ◌∷◌, bytes, arith}
use voxigo.Prelude.Bytes.{count_fields}
use voxigo.Frames.{Frame, transcription}
use voxigo.Turns.Controller.{Controller, started_hook, start_at, process}
use voxigo.Turns.Starts.{StartStrategy, min_words_start, both, start_methods}
use voxigo.Turns.Starts.BargeIn.{hear_all, barge_in_needs_words}

abbrev says : List ℕ → Frame
says t = record { id = 0; body = transcription t true }

words : count_fields (bytes " wait a  minute ") ≡ 3
unfolding count_fields
words = refl

abbrev waiting : Controller StartStrategy
waiting = record {
  starts = min_words_start both 3 true true ∷ [];
  stops = [];
  user_speaking = false;
  user_turn = false;
  watchdog = none;
  running = [];
  next_timer = 0;
  hooks = [];
}

barge_in_needs_words_example :
    ((hear_all (says (bytes "uh") ∷ []) waiting).user_turn ≡ false)
    × ((process start_methods
          (says (bytes "wait a minute"))
          (hear_all (says (bytes "uh") ∷ []) waiting)).user_turn
        ≡ true)
    × ((process start_methods
          (says (bytes "wait a minute"))
          (hear_all (says (bytes "uh") ∷ []) waiting)).hooks
        ≡ started_hook (start_at 0) true true ∷ (hear_all (says (bytes "uh") ∷ []) waiting).hooks)
unfolding count_fields
barge_in_needs_words_example =
    barge_in_needs_words both 3 true (says (bytes "uh") ∷ []) waiting 0 (bytes "wait a minute") true
      (refl, refl, refl) (omega arith, tt) (omega arith)
