-- ===== src/Context/Sequencer/Order/History.antt =====
-- utils/context/sequencer.go over a whole synthesis: any calls, in any order, between two clears.
use mathlib.Core.List.{append_assoc, append-nil}
use voxigo.Prelude.{
  ℕ, ◌≡◌, refl, sym, ap, ◌∙◌, Bool, true, false, not, ◌||◌, Option, none, some, List, [], ◌∷◌, ◌++◌,
  Text, arith, if◌then◌else◌, All-append, lookup,
}
use voxigo.Context.Sequencer.Types.{
  Tracking, Assembling, Aggregation, TextFrame, Out, is_empty, Slot, Sequencer, Streaming, Run,
}
use voxigo.Context.Sequencer.Flush.{flush, complete_spoken_slot, force_complete}
use voxigo.Context.Sequencer.Words.{process_word, open_slots}
use voxigo.Context.Sequencer.Register.{
  then_run, register_token, register_spoken, finalize, finalize_pending, promote_flushed,
  skipped_slot, append_skipped, register_skipped,
}
use voxigo.Context.Sequencer.Order.{
  released_ids, released_ids-append, skipped_ids, skipped_ids-append, HeadWaits, Inv, Steps,
  stay-Steps, flush-Steps, flush_slots-ids, flush_slots-Inv, complete_spoken_slot-Steps,
}
use voxigo.Context.Sequencer.Order.Calls.{force_complete-Steps}
use voxigo.Context.Sequencer.Order.WordCalls.{process_word-Steps}
use voxigo.Context.Sequencer.Order.Promotions.{
  promote-Steps, promote_all-Steps, append_spoken_slot-Steps, move-Steps,
}

-- The calls of the sequencer's interface, `Clear` apart.
pub data Call : Type 0 where
  registers_spoken : TextFrame → Text → Text → Bool → Bool → Bool → Call
  registers_skipped : TextFrame → Text → Text → Call
  finalizes : Text → Call
  processes : Text → ℕ → Text → Bool → Call
  completes : Call
  flushes : ℕ → Call
  forces : Text → ℕ → Call

abbrev pub registered : Call → List ℕ
registered (registers_skipped f ctx dest) = f.id ∷ []
registered (registers_spoken f ctx tts a b i) = []
registered (finalizes ctx) = []
registered (processes w p ctx i) = []
registered completes = []
registered (flushes p) = []
registered (forces ctx p) = []

abbrev pub registered_ids : List Call → List ℕ
registered_ids [] = []
registered_ids (c ∷ cs) = registered c ++ registered_ids cs

module _ (tr : Tracking) (sa : Assembling) where
  open sa use {aggregate, flush_assembler}

  unfoldable pub apply : Call → Sequencer tr sa → Run tr sa
  apply (registers_spoken f ctx tts a b i) q = register_spoken tr sa f ctx tts a b i q
  apply (registers_skipped f ctx dest) q = register_skipped tr sa f ctx dest q
  apply (finalizes ctx) q = finalize tr sa ctx q
  apply (processes w p ctx i) q = process_word tr sa w p ctx i q
  apply completes q = complete_spoken_slot tr sa q
  apply (flushes p) q = flush tr sa p q
  apply (forces ctx p) q = force_complete tr sa ctx p q

  unfoldable pub run_calls : List Call → Sequencer tr sa → Run tr sa
  run_calls [] q = (q, [])
  run_calls (c ∷ cs) q = then_run tr sa (apply c q) (run_calls cs)

  register_token-Steps :
      (f : TextFrame) (ctx tts : Text) (a b : Bool) (q : Sequencer tr sa)
      → Steps tr sa q (register_token tr sa f ctx tts a b q)
  unfolding register_token
  register_token-Steps f ctx tts a b q = move-Steps tr sa refl (promote_all-Steps tr sa _ ctx _ _ _)

  choose-Steps :
      {q : Sequencer tr sa} (c : Bool) {r s : Run tr sa}
      → Steps tr sa q r
      → Steps tr sa q s
      → Steps tr sa q (if c then r else s)
  choose-Steps true a b = a
  choose-Steps false a b = b

  register_spoken-Steps :
      (f : TextFrame) (ctx tts : Text) (a b i : Bool) (q : Sequencer tr sa)
      → Steps tr sa q (register_spoken tr sa f ctx tts a b i q)
  unfolding register_spoken
  register_spoken-Steps f ctx tts a b i q =
      choose-Steps q.streaming_mode (register_token-Steps f ctx tts a b q)
        (append_spoken_slot-Steps tr sa f ctx _ a i q)

  promote_flushed-Steps :
      (o : Option Aggregation) (ctx : Text) (sc : Streaming tr sa) (q : Sequencer tr sa)
      → Steps tr sa q (promote_flushed tr sa o ctx sc q)
  promote_flushed-Steps none ctx sc q = stay-Steps tr sa q
  promote_flushed-Steps (some a) ctx sc q = promote-Steps tr sa a ctx _ _ q

  finalize_pending-Steps :
      (o : Option (Streaming tr sa)) (ctx : Text) (q : Sequencer tr sa)
      → Steps tr sa q (finalize_pending tr sa o ctx q)
  finalize_pending-Steps none ctx q = stay-Steps tr sa q
  finalize_pending-Steps (some sc) ctx q =
      move-Steps tr sa refl (promote_flushed-Steps (flush_assembler sc.assembler) ctx sc _)

  finalize-Steps : (ctx : Text) (q : Sequencer tr sa) → Steps tr sa q (finalize tr sa ctx q)
  unfolding finalize
  finalize-Steps ctx q =
      choose-Steps (not q.streaming_mode || is_empty ctx) (stay-Steps tr sa q)
        (finalize_pending-Steps (lookup ctx q.streaming) ctx q)

  -- What a call that registers `new` skipped frames does.
  pub record Moves (q : Sequencer tr sa) (new : List ℕ) (r : Run tr sa) : Type 0 where
    pub moved : released_ids r.1 ++ skipped_ids tr sa r.0.slots ≡ skipped_ids tr sa q.slots ++ new
    pub keeps : Inv tr sa q → Inv tr sa r.0

  of_Steps : {q : Sequencer tr sa} {r : Run tr sa} → Steps tr sa q r → Moves q [] r
  of_Steps {q} st = record {
    moved = st.ids ∙ sym (append-nil (skipped_ids tr sa q.slots));
    keeps = st.inv;
  }

  -- The slot of a skipped frame, behind what is queued, and the flush after it.
  place-Moves :
      (f : TextFrame) (ctx dest : Text) (q : Sequencer tr sa)
      → Moves q (f.id ∷ []) (flush tr sa 0 (append_skipped tr sa f ctx dest q))
  unfolding flush skipped_slot
  place-Moves f ctx dest q =
      let slots = q.slots ++ skipped_slot tr sa f ctx dest ∷ [] in
      record {
        moved = flush_slots-ids tr sa 0 slots ∙ skipped_ids-append tr sa q.slots _;
        keeps = λ v.
            let (a, b) =
              flush_slots-Inv tr sa 0 slots (All-append _ q.slots _ v.fresh (λ e. refl, tt)) in
            record { fresh = a; waits = b };
      }

  chain-Moves :
      {q p : Sequencer tr sa} (xs ys : List ℕ) (out : List Out) (r : Run tr sa)
      → Moves q xs (p, out)
      → Moves p ys r
      → Moves q (xs ++ ys) (r.0, out ++ r.1)
  chain-Moves {q} {p} xs ys out (p', more) a b = record {
    moved =
        rw
          (
            released_ids-append out more,
            append_assoc (released_ids out) (released_ids more) (skipped_ids tr sa p'.slots),
            b.moved,
            ← append_assoc (released_ids out) (skipped_ids tr sa p.slots) ys,
            a.moved,
          )
          (append_assoc (skipped_ids tr sa q.slots) xs ys);
    keeps = λ v. b.keeps (a.keeps v);
  }

  apply-Moves : (c : Call) (q : Sequencer tr sa) → Moves q (registered c) (apply c q)
  unfolding apply register_skipped
  apply-Moves (registers_spoken f ctx tts a b i) q =
      of_Steps (register_spoken-Steps f ctx tts a b i q)
  apply-Moves (registers_skipped f ctx dest) q =
      let (p, out) = finalize tr sa ctx q in
      chain-Moves [] (f.id ∷ []) out (flush tr sa 0 (append_skipped tr sa f ctx dest p))
        (of_Steps (finalize-Steps ctx q)) (place-Moves f ctx dest p)
  apply-Moves (finalizes ctx) q = of_Steps (finalize-Steps ctx q)
  apply-Moves (processes w p ctx i) q = of_Steps (process_word-Steps tr sa w p ctx i q)
  apply-Moves completes q = of_Steps (complete_spoken_slot-Steps tr sa q)
  apply-Moves (flushes p) q = of_Steps (flush-Steps tr sa p q q refl (λ v. v.fresh))
  apply-Moves (forces ctx p) q = of_Steps (force_complete-Steps tr sa ctx p q)

  pub run_calls-Moves :
      (cs : List Call) (q : Sequencer tr sa) → Moves q (registered_ids cs) (run_calls cs q)
  unfolding run_calls
  run_calls-Moves [] q = of_Steps (stay-Steps tr sa q)
  run_calls-Moves (c ∷ cs) q =
      let (p, out) = apply c q in
      chain-Moves (registered c) (registered_ids cs) out (run_calls cs p) (apply-Moves c q)
        (run_calls-Moves cs p)

  -- NewAggregatedFrameSequencer.
  abbrev pub new_sequencer : Bool → ℕ → Sequencer tr sa
  new_sequencer mode id = record {
    streaming_mode = mode;
    slots = [];
    context_append = [];
    streaming = [];
    buffered = [];
    next_id = id;
  }

  -- Whatever calls are made on a new sequencer, the skipped frames that have gone downstream,
  -- followed by those that still wait, are the ones registered, each once and in the order of their
  -- registration; and the queue is empty or begins with a spoken slot that is not complete.
  pub skipped_in_order :
      (mode : Bool) (id : ℕ) (cs : List Call)
      → let r = run_calls cs (new_sequencer mode id) in
        (released_ids r.1 ++ skipped_ids tr sa r.0.slots ≡ registered_ids cs) × Inv tr sa r.0
  skipped_in_order mode id cs =
      let m = run_calls-Moves cs (new_sequencer mode id) in
      (m.moved, m.keeps (record { fresh = tt; waits = tt }))

  no_open-empty :
      (slots : List (Slot tr sa)) → open_slots tr sa slots ≡ 0 → HeadWaits tr sa slots → slots ≡ []
  no_open-empty [] h w = refl
  no_open-empty (s ∷ rest) h w = ground arith

  -- Once every spoken slot is complete nothing waits: all skipped frames registered have gone out.
  pub all_released :
      (mode : Bool) (id : ℕ) (cs : List Call)
      → open_slots tr sa (run_calls cs (new_sequencer mode id)).0.slots ≡ 0
      → released_ids (run_calls cs (new_sequencer mode id)).1 ≡ registered_ids cs
  all_released mode id cs h =
      let (a, v) = skipped_in_order mode id cs in
      let r = run_calls cs (new_sequencer mode id) in
      sym (append-nil (released_ids r.1))
      ∙ (ap (λ t. released_ids r.1 ++ skipped_ids tr sa t) (sym (no_open-empty r.0.slots h v.waits))
          ∙ a)
