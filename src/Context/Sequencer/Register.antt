-- ===== src/Context/Sequencer/Register.antt =====
-- utils/context/sequencer.go: registering spoken and skipped frames, and promoting the sentences
-- assembled from tokens into slots.
use voxigo.Prelude.{
  ℕ, suc, Bool, true, false, not, ◌||◌, Option, none, some, List, [], ◌∷◌, ◌++◌, Text, is_blank,
  lookup, insert, delete, if◌then◌else◌,
}
use voxigo.Context.Sequencer.Types.{
  Tracking, Assembling, Aggregation, TextFrame, WordFrame, BufferedWord, aggregated, spoken_word,
  raw_or, is_empty, Slot, Streaming, Sequencer, Run,
}
use voxigo.Context.Sequencer.Flush.{append_spoken_slot, complete_spoken_slot, flush}
use voxigo.Context.Sequencer.Words.{process_word}

module _ (tr : Tracking) (sa : Assembling) where
  open tr use {Tracker, new_tracker}
  open sa use {Assembler, new_assembler, aggregate, flush_assembler}

  -- Calls in a row: the second on the state that the first leaves.
  abbrev pub then_run : Run tr sa → (Sequencer tr sa → Run tr sa) → Run tr sa
  then_run (q, out) f = let (q', more) = f q in (q', out ++ more)

  unfoldable pub replay : List BufferedWord → Sequencer tr sa → Run tr sa
  replay [] q = (q, [])
  replay (w ∷ ws) q =
      then_run (process_word tr sa w.held_word w.held_pts w.held_context w.held_inter q) (replay ws)

  unfoldable pub drain_buffered_words : Sequencer tr sa → Run tr sa
  unfolding replay
  drain_buffered_words q = replay q.buffered (record q { buffered = [] })

  abbrev pub sentence_frame : ℕ → Aggregation → Text → TextFrame
  sentence_frame id agg ctx = record {
    id = id;
    text = agg.user_facing;
    frame_raw = agg.llm;
    frame_context = ctx;
    append_to_context = false;
    will_be_spoken = true;
    destination = [];
    frame_pts = 0;
  }

  -- The whole sentence as one word, for a slot that no word will complete.
  abbrev pub sentence_word : Aggregation → Bool → WordFrame
  sentence_word agg append_to = record {
    word = agg.user_facing;
    word_pts = 0;
    word_context = [];
    word_raw = agg.llm;
    word_append = append_to;
    inter_frame = false;
  }

  -- With a tracker the slot waits for its words; without one it completes at once.
  abbrev pub settle : Bool → Aggregation → Bool → Sequencer tr sa → Run tr sa
  settle true agg append_to q = (q, [])
  settle false agg append_to q =
      then_run (q, spoken_word (sentence_word agg append_to) ∷ []) (complete_spoken_slot tr sa)

  -- The slot of a promoted sentence.
  unfoldable pub add_sentence : Aggregation → Text → Bool → Bool → Sequencer tr sa → Run tr sa
  add_sentence agg ctx append_to build q =
      let f = sentence_frame q.next_id agg ctx in
      let t = if build then some (new_tracker agg.tts agg.user_facing agg.llm) else none in
      (
        append_spoken_slot tr sa f ctx t append_to false (record q { next_id = suc q.next_id }),
        aggregated f ∷ [],
      )

  unfoldable pub promote : Aggregation → Text → Bool → Bool → Sequencer tr sa → Run tr sa
  promote agg ctx append_to build q =
      let placed = then_run (add_sentence agg ctx append_to build q) (settle build agg append_to) in
      if is_blank agg.user_facing then (q, []) else then_run placed drain_buffered_words

  unfoldable pub promote_all : List Aggregation → Text → Bool → Bool → Sequencer tr sa → Run tr sa
  promote_all [] ctx append_to build q = (q, [])
  promote_all (a ∷ rest) ctx append_to build q =
      then_run (promote a ctx append_to build q) (promote_all rest ctx append_to build)

  abbrev pub new_streaming : Bool → Bool → Streaming tr sa
  new_streaming append_to build = record {
    assembler = new_assembler;
    append_to_ctx = append_to;
    build_tracker = build;
  }

  abbrev pub or_streaming : Option (Streaming tr sa) → Streaming tr sa → Streaming tr sa
  or_streaming none s = s
  or_streaming (some t) s = t

  -- A token folded into the context's assembler, and the sentences that it completes promoted.
  unfoldable pub register_token :
      TextFrame → Text → Text → Bool → Bool → Sequencer tr sa → Run tr sa
  register_token f ctx tts_text append_to build q =
      let sc = or_streaming (lookup ctx q.streaming) (new_streaming append_to build) in
      let (a, done) = aggregate tts_text (raw_or f) f.text sc.assembler in
      promote_all done ctx sc.append_to_ctx sc.build_tracker
        (record q { streaming = insert ctx (record sc { assembler = a }) q.streaming })

  unfoldable pub register_spoken :
      TextFrame → Text → Text → Bool → Bool → Bool → Sequencer tr sa → Run tr sa
  register_spoken f ctx tts_text append_to build inter q =
      let t = if build then some (new_tracker tts_text f.text (raw_or f)) else none in
      if q.streaming_mode
      then register_token f ctx tts_text append_to build q
      else (append_spoken_slot tr sa f ctx t append_to inter q, [])

  abbrev pub promote_flushed :
      Option Aggregation → Text → Streaming tr sa → Sequencer tr sa → Run tr sa
  promote_flushed none ctx sc q = (q, [])
  promote_flushed (some a) ctx sc q = promote a ctx sc.append_to_ctx sc.build_tracker q

  abbrev pub finalize_pending : Option (Streaming tr sa) → Text → Sequencer tr sa → Run tr sa
  finalize_pending none ctx q = (q, [])
  finalize_pending (some sc) ctx q =
      promote_flushed (flush_assembler sc.assembler) ctx sc
        (record q { streaming = delete ctx q.streaming })

  unfoldable pub finalize : Text → Sequencer tr sa → Run tr sa
  finalize ctx q =
      if not q.streaming_mode || is_empty ctx
      then (q, [])
      else finalize_pending (lookup ctx q.streaming) ctx q

  unfoldable pub skipped_slot : TextFrame → Text → Text → Slot tr sa
  skipped_slot f ctx dest = record {
    frame = record f { frame_context = ctx };
    context_id = ctx;
    spoken = false;
    tracker = none;
    transport_destination = dest;
    complete = false;
    includes_inter_frame = false;
  }

  abbrev pub append_skipped : TextFrame → Text → Text → Sequencer tr sa → Sequencer tr sa
  append_skipped f ctx dest q = record q { slots = q.slots ++ skipped_slot f ctx dest ∷ [] }

  unfoldable pub register_skipped : TextFrame → Text → Text → Sequencer tr sa → Run tr sa
  register_skipped f ctx dest q =
      then_run (finalize ctx q) (λ p. flush tr sa 0 (append_skipped f ctx dest p))
