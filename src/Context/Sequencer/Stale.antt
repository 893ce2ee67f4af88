-- ===== src/Context/Sequencer/Stale.antt =====
-- utils/context/sequencer.go: words of a context that is over, and closing a context out.
use voxigo.Prelude.{
  ℕ, ◌≡◌, refl, ◌∙◌, Bool, true, false, none, List, [], ◌∷◌, Text, arith, All, text_eq_self, lookup,
  delete, lookup-delete,
}
use voxigo.Context.Sequencer.Types.{Tracking, Assembling, is_empty, Slot, Sequencer}
use voxigo.Context.Sequencer.Flush.{
  flush_slots, flush, close_slots, is_pending, force_complete, clear,
}
use voxigo.Context.Sequencer.Words.{
  is_stale, context_live, process_step, process_from, process_word,
}

module _ (tr : Tracking) (sa : Assembling) where
  -- A stale word is dropped: no frame comes of it and nothing changes.
  pub process_word-stale :
      (word : Text) (pts : ℕ) (ctx : Text) (inter : Bool) (q : Sequencer tr sa)
      → is_stale tr sa ctx q ≡ true
      → process_word tr sa word pts ctx inter q ≡ (q, [])
  unfolding process_word process_from process_step
  process_word-stale word pts ctx inter q h = rw h

  -- A context is stale once neither map has it.
  stale_of_deleted :
      (ctx : Text) (q : Sequencer tr sa)
      → is_empty ctx ≡ false
      → lookup ctx q.context_append ≡ none
      → lookup ctx q.streaming ≡ none
      → is_stale tr sa ctx q ≡ true
  unfolding is_stale context_live
  stale_of_deleted ctx q e a b = rw (e, a, b)

  lookup_deleted {ℓ} :
      {V : Type ℓ} (ctx : Text) (m : List (Text × V)) → lookup ctx (delete ctx m) ≡ none
  lookup_deleted ctx m = lookup-delete ctx ctx m ∙ rw (text_eq_self ctx)

  -- A context that is closed out is over: a word that arrives for it later changes nothing.
  pub force_complete-process_word :
      (ctx : Text) (last_pts : ℕ) (word : Text) (pts : ℕ) (inter : Bool) (q : Sequencer tr sa)
      → is_empty ctx ≡ false
      → let q' = (force_complete tr sa ctx last_pts q).0 in
        process_word tr sa word pts ctx inter q' ≡ (q', [])
  unfolding force_complete flush
  force_complete-process_word ctx last_pts word pts inter q e =
      process_word-stale word pts ctx inter (force_complete tr sa ctx last_pts q).0 (
        stale_of_deleted ctx (force_complete tr sa ctx last_pts q).0 e
          (lookup_deleted ctx q.context_append) (lookup_deleted ctx q.streaming))

  -- After an interruption every tagged word is stale.
  pub clear-process_word :
      (word : Text) (pts : ℕ) (ctx : Text) (inter : Bool) (q : Sequencer tr sa)
      → is_empty ctx ≡ false
      → process_word tr sa word pts ctx inter (clear tr sa q) ≡ (clear tr sa q, [])
  unfolding clear
  clear-process_word word pts ctx inter q e =
      process_word-stale word pts ctx inter (clear tr sa q)
        (stale_of_deleted ctx (clear tr sa q) e refl refl)

  close_slots-closed :
      (m : List (Text × Bool)) (ctx : Text) (p : ℕ) (slots : List (Slot tr sa))
      → All (λ s. is_pending tr sa ctx s ≡ false) (close_slots tr sa m ctx p slots).0
  unfolding close_slots is_pending
  close_slots-closed m ctx p [] = tt
  close_slots-closed m ctx p (s ∷ rest) = ground (arith, close_slots-closed m ctx p rest)

  flush_slots-All {κ} :
      (P : Slot tr sa → Type κ) (p : ℕ) (slots : List (Slot tr sa))
      → All P slots
      → All P (flush_slots tr sa p slots).0
  unfolding flush_slots
  flush_slots-All P p [] h = tt
  flush_slots-All P p (s ∷ rest) h = ground (arith, flush_slots-All P p rest h.1, h.0, h.1)

  -- Closing a context out leaves no spoken slot of it to complete.
  pub force_complete-closed :
      (ctx : Text) (last_pts : ℕ) (q : Sequencer tr sa)
      → All (λ s. is_pending tr sa ctx s ≡ false) (force_complete tr sa ctx last_pts q).0.slots
  unfolding force_complete flush
  force_complete-closed ctx last_pts q =
      flush_slots-All _ last_pts (close_slots tr sa q.context_append ctx last_pts q.slots).0
        (close_slots-closed q.context_append ctx last_pts q.slots)
