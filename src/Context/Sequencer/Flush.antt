-- ===== src/Context/Sequencer/Flush.antt =====
-- utils/context/sequencer.go: walking the queue, and closing slots out.
use voxigo.Prelude.{
  ℕ, Bool, true, false, not, ◌&&◌, Option, none, some, List, [], ◌∷◌, ◌++◌, Text, text_eq, contains,
  lookup, insert, delete, if◌then◌else◌, ◌==◌,
}
use voxigo.Context.Sequencer.Types.{
  Tracking, Assembling, TextFrame, WordFrame, Out, aggregated, spoken_word, is_empty, Slot,
  Sequencer, Run,
}

module _ (tr : Tracking) (sa : Assembling) where
  open tr use {Tracker, remaining_tts_text, remaining_raw_text_only}

  -- The frame of a skipped slot as it goes downstream.
  unfoldable pub released : ℕ → Slot tr sa → TextFrame
  released last_pts s = record f {
    append_to_context = true;
    destination = s.transport_destination;
    frame_pts = if last_pts == 0 then f.frame_pts else last_pts;
  }
    where
      open s use {frame as f}

  -- The loop of `flushLocked`: what stays queued, and what goes out.
  unfoldable pub flush_slots : ℕ → List (Slot tr sa) → List (Slot tr sa) × List Out
  unfolding released
  flush_slots last_pts [] = ([], [])
  flush_slots last_pts (s ∷ rest) =
      let (left, out) = flush_slots last_pts rest in
      if s.spoken && s.complete
      then (left, out)
      else if not s.spoken && not s.complete
      then (left, aggregated (released last_pts s) ∷ out)
      else (s ∷ rest, [])

  unfoldable pub flush : ℕ → Sequencer tr sa → Run tr sa
  flush last_pts q =
      let (left, out) = flush_slots last_pts q.slots in (record q { slots = left }, out)

  unfoldable pub complete_first : List (Slot tr sa) → List (Slot tr sa)
  complete_first [] = []
  complete_first (s ∷ rest) =
      if s.spoken && not s.complete
      then record s { complete = true } ∷ rest
      else s ∷ complete_first rest

  unfoldable pub complete_spoken_slot : Sequencer tr sa → Run tr sa
  unfolding complete_first
  complete_spoken_slot q = flush 0 (record q { slots = complete_first q.slots })

  unfoldable pub append_spoken_slot :
      TextFrame → Text → Option Tracker → Bool → Bool → Sequencer tr sa → Sequencer tr sa
  append_spoken_slot f ctx t append_to inter q = record q {
    context_append = insert ctx append_to q.context_append;
    slots = q.slots ++ slot ∷ [];
  }
    where
      slot : Slot tr sa
      slot = record {
        frame = f;
        context_id = ctx;
        spoken = true;
        tracker = t;
        transport_destination = [];
        complete = false;
        includes_inter_frame = inter;
      }

  abbrev pub or_true : Option Bool → Bool
  or_true none = true
  or_true (some b) = b

  -- Whether a word goes into the conversation: the switch at the end of `buildWordFrame`.
  unfoldable pub appends : List (Text × Bool) → Text → Bool → Bool
  appends m ctx suppressed =
      if suppressed then false else if is_empty ctx then true else or_true (lookup ctx m)

  unfoldable pub build_word_frame :
      List (Text × Bool) → Text → ℕ → Text → Text → Bool → Bool → WordFrame
  build_word_frame m text pts ctx raw suppressed inter = record {
    word = text;
    word_pts = pts;
    word_context = ctx;
    word_raw = raw;
    word_append = appends m ctx suppressed;
    inter_frame = inter;
  }

  -- The original text that goes with the remainder: dropped where it does not hold it.
  abbrev pub raw_remainder : Option Text → Text → Text
  raw_remainder none remaining = []
  raw_remainder (some raw) remaining =
      if not (is_empty raw) && (not (is_empty remaining) && not (contains raw remaining))
      then []
      else raw

  -- The word frame that a slot closes with, if anything of it is unspoken.
  unfoldable pub closing : List (Text × Bool) → ℕ → Slot tr sa → Option Tracker → List Out
  unfolding build_word_frame
  closing m last_pts s none = []
  closing m last_pts s (some t) =
      let remaining = remaining_tts_text true t in
      if is_empty remaining
      then []
      else spoken_word (
          build_word_frame m remaining last_pts s.context_id
            (raw_remainder (remaining_raw_text_only t) remaining) false s.includes_inter_frame)
        ∷ []

  unfoldable pub is_pending : Text → Slot tr sa → Bool
  is_pending ctx s = s.spoken && (not s.complete && text_eq s.context_id ctx)

  -- The loop of `forceCompleteLocked`.
  unfoldable pub close_slots :
      List (Text × Bool) → Text → ℕ → List (Slot tr sa) → List (Slot tr sa) × List Out
  close_slots m ctx last_pts [] = ([], [])
  close_slots m ctx last_pts (s ∷ rest) =
      let (left, out) = close_slots m ctx last_pts rest in
      if is_pending ctx s
      then (record s { complete = true } ∷ left, closing m last_pts s s.tracker ++ out)
      else (s ∷ left, out)

  unfoldable pub force_complete : Text → ℕ → Sequencer tr sa → Run tr sa
  force_complete ctx last_pts q =
      let (closed, words) = close_slots q.context_append ctx last_pts q.slots in
      let (q', out) = flush last_pts (record q { slots = closed }) in
      (
        record q' {
          context_append = delete ctx q'.context_append;
          streaming = delete ctx q'.streaming;
        },
        words ++ out,
      )

  unfoldable pub clear : Sequencer tr sa → Sequencer tr sa
  clear q = record q { slots = []; context_append = []; buffered = []; streaming = [] }
