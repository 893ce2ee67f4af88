-- ===== src/Context/Sequencer/Order.antt =====
-- utils/context/sequencer.go: the order in which the frames leave. What is skipped waits at its
-- place in the queue, so skipped frames leave in the order they were registered, each once.
pub mod Calls
pub mod WordCalls
pub mod Promotions
pub mod History
use mathlib.Core.List.{append_assoc, append-nil}
use voxigo.Prelude.{
  ℕ, zero, suc, ◌+◌, ◌≡◌, refl, sym, ap, ◌∙◌, ◌⊎◌, inl, inr, Bool, true, false, not, ◌&&◌, ◌||◌,
  Option, none, some, List, [], ◌∷◌, ◌++◌, Text, arith, Bool-cases, Option-cases, if◌then◌else◌,
  All, All-append,
}
use voxigo.Context.Sequencer.Types.{
  Tracking, Assembling, TextFrame, Out, aggregated, spoken_word, progress, is_empty, Slot,
  Sequencer, Run, is_some,
}
use voxigo.Context.Sequencer.Flush.{
  flush_slots, flush, released, complete_first, complete_spoken_slot, append_spoken_slot,
  close_slots, closing, is_pending, force_complete,
}

-- The ids of the skipped frames among what goes downstream: those put into the conversation.
abbrev pub released_ids : List Out → List ℕ
released_ids [] = []
released_ids (aggregated f ∷ out) =
    if f.append_to_context then f.id ∷ released_ids out else released_ids out
released_ids (spoken_word w ∷ out) = released_ids out
released_ids (progress p ∷ out) = released_ids out

pub released_ids-append :
    (a b : List Out) → released_ids (a ++ b) ≡ released_ids a ++ released_ids b
released_ids-append [] b = refl
released_ids-append (aggregated f ∷ a) b = ground (arith, released_ids-append a b)
released_ids-append (spoken_word w ∷ a) b = released_ids-append a b
released_ids-append (progress p ∷ a) b = released_ids-append a b

module _ (tr : Tracking) (sa : Assembling) where
  -- The ids of the skipped frames that wait.
  abbrev pub skipped_ids : List (Slot tr sa) → List ℕ
  skipped_ids [] = []
  skipped_ids (s ∷ rest) = if s.spoken then skipped_ids rest else s.frame.id ∷ skipped_ids rest

  abbrev pub HeadWaits : List (Slot tr sa) → Type 0
  HeadWaits [] = Unit {0}
  HeadWaits (s ∷ rest) = (s.spoken ≡ true) × (s.complete ≡ false)

  abbrev pub IsFresh : Slot tr sa → Type 0
  IsFresh s = s.spoken ≡ false → s.complete ≡ false

  -- No skipped slot is marked complete, and the queue is empty or waits for a spoken slot.
  pub record Inv (q : Sequencer tr sa) : Type 0 where
    pub fresh : All IsFresh q.slots
    pub waits : HeadWaits q.slots

  pub skipped_ids-append :
      (a b : List (Slot tr sa)) → skipped_ids (a ++ b) ≡ skipped_ids a ++ skipped_ids b
  skipped_ids-append [] b = refl
  skipped_ids-append (s ∷ a) b = ground (arith, skipped_ids-append a b)

  pub flush_slots-ids :
      (p : ℕ) (slots : List (Slot tr sa))
      → let r = flush_slots tr sa p slots in released_ids r.1 ++ skipped_ids r.0 ≡ skipped_ids slots
  unfolding flush_slots
  flush_slots-ids p [] = refl
  flush_slots-ids p (s ∷ rest) = ground (arith, flush_slots-ids p rest)

  pub flush_slots-Inv :
      (p : ℕ) (slots : List (Slot tr sa))
      → All IsFresh slots
      → let r = flush_slots tr sa p slots in All IsFresh r.0 × HeadWaits r.0
  unfolding flush_slots
  flush_slots-Inv p [] h = (tt, tt)
  flush_slots-Inv p (s ∷ rest) h = ground (arith, flush_slots-Inv p rest h.1, h.0)

  -- What a call does to the skipped frames, and to the invariant.
  pub record Steps (q : Sequencer tr sa) (r : Run tr sa) : Type 0 where
    pub ids : released_ids r.1 ++ skipped_ids r.0.slots ≡ skipped_ids q.slots
    pub inv : Inv q → Inv r.0

  pub stay-Steps : (q : Sequencer tr sa) → Steps q (q, [])
  stay-Steps q = record { ids = refl; inv = λ v. v }

  -- A flush after a change that keeps the skipped frames.
  pub flush-Steps :
      (p : ℕ) (q q' : Sequencer tr sa)
      → skipped_ids q'.slots ≡ skipped_ids q.slots
      → (Inv q → All IsFresh q'.slots)
      → Steps q (flush tr sa p q')
  unfolding flush
  flush-Steps p q q' e f = record {
    ids = flush_slots-ids p q'.slots ∙ e;
    inv = λ v. let (a, b) = flush_slots-Inv p q'.slots (f v) in record { fresh = a; waits = b };
  }

  complete_first-keeps :
      (slots : List (Slot tr sa))
      → (skipped_ids (complete_first tr sa slots) ≡ skipped_ids slots)
        × (All IsFresh slots → All IsFresh (complete_first tr sa slots))
  unfolding complete_first
  complete_first-keeps [] = (refl, λ h. tt)
  complete_first-keeps (s ∷ rest) = (
    ground (arith, (complete_first-keeps rest).0),
    λ h. ground (arith, (complete_first-keeps rest).1 h.1, h.0),
  )

  pub complete_spoken_slot-Steps : (q : Sequencer tr sa) → Steps q (complete_spoken_slot tr sa q)
  unfolding complete_spoken_slot
  complete_spoken_slot-Steps q =
      let (a, b) = complete_first-keeps q.slots in flush-Steps 0 q _ a (λ v. b v.fresh)
