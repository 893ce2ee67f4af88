-- ===== src/Context/Sequencer/Examples.antt =====
-- utils/context/sequencer.go at a short turn: a tracker that matches words as prefixes of what is
-- left, and an assembler that takes each token for a sentence.
use voxigo.Prelude.{
  ℕ, ◌≡◌, refl, true, false, none, some, List, [], ◌∷◌, ◌++◌, Text, arith, bytes, leb, length, drop,
  has_prefix, All,
}
use voxigo.Context.Sequencer.Types.{Tracking, Assembling, TextFrame, Sequencer}
use voxigo.Context.Sequencer.Flush.{
  flush_slots, flush, complete_spoken_slot, force_complete, clear, is_pending, append_spoken_slot,
}
use voxigo.Context.Sequencer.Words.{process_from, process_word}
use voxigo.Context.Sequencer.Register.{register_spoken, register_skipped, finalize, skipped_slot}
use voxigo.Context.Sequencer.Fuel.{process_word-total}
use voxigo.Context.Sequencer.Order.{released_ids, skipped_ids, Inv}
use voxigo.Context.Sequencer.Order.History.{
  Call, registers_spoken, registers_skipped, completes, run_calls, apply, registered_ids,
  new_sequencer, skipped_in_order, all_released,
}
use voxigo.Context.Sequencer.Stale.{
  force_complete-process_word, clear-process_word, force_complete-closed,
}

abbrev tracking : Tracking
tracking = record {
  Tracker = Text × Text;
  new_tracker = λ tts shown llm. ([], tts);
  add_word = λ w t. ((w, drop (length w) t.1), leb (length t.1) (length w));
  word_belongs_here = λ w t. has_prefix w t.1;
  overflow_word = λ t. none;
  frame_word = λ t. some t.0;
  raw_text = λ t. none;
  suppress = λ t. false;
  remaining_tts_text = λ strip t. t.1;
  remaining_raw_text_only = λ t. none;
  accumulated_user_facing_text = λ t. [];
  remaining_user_facing_text = λ strip t. t.1;
}

abbrev assembling : Assembling
assembling = record {
  Assembler = Unit {0};
  new_assembler = tt;
  aggregate = λ tts llm shown a. (a, record { tts = tts; llm = llm; user_facing = shown } ∷ []);
  flush_assembler = λ a. none;
}

abbrev frame : ℕ → Text → TextFrame
frame i t = record {
  id = i;
  text = t;
  frame_raw = [];
  frame_context = [];
  append_to_context = false;
  will_be_spoken = false;
  destination = [];
  frame_pts = 0;
}

abbrev turn : Text
turn = bytes "turn"

abbrev start : Sequencer tracking assembling
start = new_sequencer tracking assembling false 100

-- A sentence is spoken without word timings, between two code blocks.
abbrev calls : List Call
calls =
    registers_skipped (frame 1 (bytes "a")) turn []
    ∷ registers_spoken (frame 2 (bytes "hi")) turn (bytes "hi") true false false
    ∷ registers_skipped (frame 3 (bytes "b")) turn []
    ∷ []

second_waits :
    let r = run_calls tracking assembling calls start in
    (released_ids r.1 ≡ 1 ∷ []) × (skipped_ids tracking assembling r.0.slots ≡ 3 ∷ [])
unfolding run_calls apply register_skipped register_spoken finalize flush flush_slots skipped_slot
    append_spoken_slot
second_waits = (refl, refl)

skipped_in_order_example :
    let r = run_calls tracking assembling calls start in
    (released_ids r.1 ++ skipped_ids tracking assembling r.0.slots ≡ registered_ids calls)
    × Inv tracking assembling r.0
skipped_in_order_example = skipped_in_order tracking assembling false 100 calls

abbrev whole_turn : List Call
whole_turn = calls ++ completes ∷ []

all_released_example :
    released_ids (run_calls tracking assembling whole_turn start).1 ≡ registered_ids whole_turn
unfolding run_calls apply register_skipped register_spoken finalize flush flush_slots skipped_slot
    append_spoken_slot complete_spoken_slot
all_released_example = all_released tracking assembling false 100 whole_turn refl

abbrev speaking : Sequencer tracking assembling
speaking =
    (run_calls tracking assembling
      (registers_spoken (frame 2 (bytes "hi")) turn (bytes "hi") true true false ∷ []) start).0

process_word-total_example :
    process_from tracking assembling 2 (bytes "hi") 7 turn false speaking
    ≡ some (process_word tracking assembling (bytes "hi") 7 turn false speaking)
unfolding run_calls apply register_spoken append_spoken_slot
process_word-total_example =
    process_word-total tracking assembling 2 (bytes "hi") 7 turn false speaking (omega arith)

force_complete-process_word_example :
    let q = (force_complete tracking assembling turn 5 speaking).0 in
    process_word tracking assembling (bytes "hi") 9 turn false q ≡ (q, [])
force_complete-process_word_example =
    force_complete-process_word tracking assembling turn 5 (bytes "hi") 9 false speaking refl

clear-process_word_example :
    process_word tracking assembling (bytes "hi") 9 turn false (clear tracking assembling speaking)
    ≡ (clear tracking assembling speaking, [])
clear-process_word_example =
    clear-process_word tracking assembling (bytes "hi") 9 turn false speaking refl

force_complete-closed_example :
    All
      (λ s. is_pending tracking assembling turn s ≡ false)
      (force_complete tracking assembling turn 5 speaking).0.slots
force_complete-closed_example = force_complete-closed tracking assembling turn 5 speaking
