-- ===== src/Context/Sequencer/Order/Promotions.antt =====
-- utils/context/sequencer.go: a promoted sentence keeps the skipped frames in order.
use mathlib.Core.List.{append-nil}
use voxigo.Prelude.{
  suc, ◌≡◌, refl, ap, ◌∙◌, inl, inr, Bool, true, false, Option, List, [], ◌∷◌, ◌++◌, Text,
  Bool-cases, All-append, is_blank,
}
use voxigo.Context.Sequencer.Types.{
  Tracking, Assembling, Aggregation, TextFrame, BufferedWord, spoken_word, Slot, Sequencer, Run,
}
use voxigo.Context.Sequencer.Flush.{complete_spoken_slot, append_spoken_slot}
use voxigo.Context.Sequencer.Register.{
  then_run, replay, drain_buffered_words, promote, promote_all, settle, sentence_word, add_sentence,
}
use voxigo.Context.Sequencer.Order.{
  skipped_ids, skipped_ids-append, HeadWaits, Steps, stay-Steps, complete_spoken_slot-Steps,
}
use voxigo.Context.Sequencer.Order.Calls.{then_run-Steps}
use voxigo.Context.Sequencer.Order.WordCalls.{process_word-Steps}

module _ (tr : Tracking) (sa : Assembling) where
  open tr use {Tracker, add_word}

  replay-Steps : (ws : List BufferedWord) (q : Sequencer tr sa) → Steps tr sa q (replay tr sa ws q)
  unfolding replay
  replay-Steps [] q = stay-Steps tr sa q
  replay-Steps (w ∷ ws) q =
      then_run-Steps tr sa _ (replay tr sa ws)
        (process_word-Steps tr sa w.held_word w.held_pts w.held_context w.held_inter q)
        (replay-Steps ws)

  -- A change of anything but the slots.
  pub move-Steps :
      {q q' : Sequencer tr sa} {r : Run tr sa}
      → q'.slots ≡ q.slots
      → Steps tr sa q' r
      → Steps tr sa q r
  move-Steps {q} {q'} e st = record {
    ids = st.ids ∙ ap (skipped_ids tr sa) e;
    inv = λ v. st.inv (record { fresh = rw e v.fresh; waits = rw e v.waits });
  }

  drain-Steps : (q : Sequencer tr sa) → Steps tr sa q (drain_buffered_words tr sa q)
  unfolding drain_buffered_words
  drain-Steps q = move-Steps refl (replay-Steps q.buffered (record q { buffered = [] }))

  HeadWaits-append :
      (xs : List (Slot tr sa)) (s : Slot tr sa)
      → s.spoken ≡ true
      → s.complete ≡ false
      → HeadWaits tr sa xs
      → HeadWaits tr sa (xs ++ s ∷ [])
  HeadWaits-append [] s a b w = (a, b)
  HeadWaits-append (x ∷ xs) s a b w = w

  pub append_spoken_slot-Steps :
      (f : TextFrame) (ctx : Text) (t : Option Tracker) (append_to inter : Bool)
      (q : Sequencer tr sa)
      → Steps tr sa q (append_spoken_slot tr sa f ctx t append_to inter q, [])
  unfolding append_spoken_slot
  append_spoken_slot-Steps f ctx t append_to inter q = record {
    ids = skipped_ids-append tr sa q.slots _ ∙ append-nil (skipped_ids tr sa q.slots);
    inv = λ v. record {
      fresh = All-append _ q.slots _ v.fresh (λ e. refl, tt);
      waits = HeadWaits-append q.slots _ refl refl v.waits;
    };
  }

  settle-Steps :
      (build : Bool) (a : Aggregation) (append_to : Bool) (q : Sequencer tr sa)
      → Steps tr sa q (settle tr sa build a append_to q)
  settle-Steps true a append_to q = stay-Steps tr sa q
  settle-Steps false a append_to q =
      then_run-Steps tr sa (q, spoken_word (sentence_word tr sa a append_to) ∷ [])
        (complete_spoken_slot tr sa) (record { ids = refl; inv = λ v. v })
        (complete_spoken_slot-Steps tr sa)

  add_sentence-Steps :
      (a : Aggregation) (ctx : Text) (append_to build : Bool) (q : Sequencer tr sa)
      → Steps tr sa q (add_sentence tr sa a ctx append_to build q)
  unfolding add_sentence
  add_sentence-Steps a ctx append_to build q =
      let st =
        append_spoken_slot-Steps _ ctx _ append_to false (record q { next_id = suc q.next_id }) in
      record { ids = st.ids; inv = λ v. st.inv (record { fresh = v.fresh; waits = v.waits }) }

  pub promote-Steps :
      (a : Aggregation) (ctx : Text) (append_to build : Bool) (q : Sequencer tr sa)
      → Steps tr sa q (promote tr sa a ctx append_to build q)
  unfolding promote
  promote-Steps a ctx append_to build q = elim (Bool-cases (is_blank a.user_facing)) [
    | inl e ↦ rw e (stay-Steps tr sa q)
    | inr e ↦ rw e (
        then_run-Steps tr sa
          (then_run tr sa (add_sentence tr sa a ctx append_to build q)
            (settle tr sa build a append_to))
          (drain_buffered_words tr sa)
          (then_run-Steps tr sa (add_sentence tr sa a ctx append_to build q)
            (settle tr sa build a append_to) (add_sentence-Steps a ctx append_to build q)
            (settle-Steps build a append_to))
          drain-Steps)
  ]

  pub promote_all-Steps :
      (aggs : List Aggregation) (ctx : Text) (append_to build : Bool) (q : Sequencer tr sa)
      → Steps tr sa q (promote_all tr sa aggs ctx append_to build q)
  unfolding promote_all
  promote_all-Steps [] ctx append_to build q = stay-Steps tr sa q
  promote_all-Steps (a ∷ rest) ctx append_to build q =
      then_run-Steps tr sa _ (promote_all tr sa rest ctx append_to build)
        (promote-Steps a ctx append_to build q) (promote_all-Steps rest ctx append_to build)
