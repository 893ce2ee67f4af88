-- ===== src/Context/Sequencer/Order/Calls.antt =====
-- utils/context/sequencer.go: closing a context out keeps the skipped frames in order.
use mathlib.Core.List.{append_assoc}
use voxigo.Prelude.{ℕ, ◌≡◌, refl, Bool, Option, none, some, List, [], ◌∷◌, ◌++◌, Text, arith, All}
use voxigo.Context.Sequencer.Types.{Tracking, Assembling, Out, Slot, Sequencer, Run}
use voxigo.Context.Sequencer.Flush.{flush, close_slots, closing, is_pending, force_complete}
use voxigo.Context.Sequencer.Register.{then_run}
use voxigo.Context.Sequencer.Order.{
  released_ids, released_ids-append, skipped_ids, IsFresh, Steps, flush-Steps,
}

module _ (tr : Tracking) (sa : Assembling) where
  open tr use {Tracker, add_word}

  -- One call after another.
  pub chain-Steps :
      {q p : Sequencer tr sa} (out : List Out) (r : Run tr sa)
      → Steps tr sa q (p, out)
      → Steps tr sa p r
      → Steps tr sa q (r.0, out ++ r.1)
  chain-Steps out (p', more) a b = record {
    ids =
        rw
          (
            released_ids-append out more,
            append_assoc (released_ids out) (released_ids more) (skipped_ids tr sa p'.slots),
            b.ids,
          )
          a.ids;
    inv = λ v. b.inv (a.inv v);
  }

  pub then_run-Steps :
      {q : Sequencer tr sa} (r : Run tr sa) (f : Sequencer tr sa → Run tr sa)
      → Steps tr sa q r
      → ((p : Sequencer tr sa) → Steps tr sa p (f p))
      → Steps tr sa q (then_run tr sa r f)
  then_run-Steps (p, out) f a b = chain-Steps out (f p) a (b p)

  closing-ids :
      (m : List (Text × Bool)) (p : ℕ) (s : Slot tr sa) (t : Option Tracker)
      → released_ids (closing tr sa m p s t) ≡ []
  unfolding closing
  closing-ids m p s none = refl
  closing-ids m p s (some t) = ground arith

  close_slots-keeps :
      (m : List (Text × Bool)) (ctx : Text) (p : ℕ) (slots : List (Slot tr sa))
      → let r = close_slots tr sa m ctx p slots in
        (released_ids r.1 ≡ [])
        × (skipped_ids tr sa r.0 ≡ skipped_ids tr sa slots)
        × (All (IsFresh tr sa) slots → All (IsFresh tr sa) r.0)
  unfolding close_slots is_pending
  close_slots-keeps m ctx p [] = (refl, refl, λ h. tt)
  close_slots-keeps m ctx p (s ∷ rest) =
      let (a, b, c) = close_slots-keeps m ctx p rest in
      let (left, out) = close_slots tr sa m ctx p rest in
      (
        ground (
          arith,
          a,
          closing-ids m p s s.tracker,
          released_ids-append (closing tr sa m p s s.tracker) out,
        ),
        ground (arith, b),
        λ h. ground (arith, c h.1, h.0),
      )

  pub force_complete-Steps :
      (ctx : Text) (p : ℕ) (q : Sequencer tr sa) → Steps tr sa q (force_complete tr sa ctx p q)
  unfolding force_complete
  force_complete-Steps ctx p q =
      let (a, b, c) = close_slots-keeps q.context_append ctx p q.slots in
      let (closed, words) = close_slots tr sa q.context_append ctx p q.slots in
      let st = flush-Steps tr sa p q (record q { slots = closed }) b (λ v. c v.fresh) in
      let out = (flush tr sa p (record q { slots = closed })).1 in
      record {
        ids = rw (released_ids-append words out, a) st.ids;
        inv = λ v. let w = st.inv v in record { fresh = w.fresh; waits = w.waits };
      }
