-- ===== src/Context/Sequencer/Words.antt =====
-- utils/context/sequencer.go: folding one word timing into the slot that it belongs to. The
-- sequencer's active slot is the first in the queue that can take the word, so a mutation of it is
-- an update of that first match, and the next active slot is the second match.
use voxigo.Prelude.{
  ℕ, zero, suc, Bool, false, not, ◌&&◌, ◌||◌, Option, none, some, List, [], ◌∷◌, ◌++◌, Text,
  text_eq, lookup, if◌then◌else◌,
}
use voxigo.Context.Sequencer.Types.{
  Tracking, Assembling, BufferedWord, Out, spoken_word, progress, or_empty, is_empty, Slot,
  Sequencer, Run, is_some,
}
use voxigo.Context.Sequencer.Flush.{build_word_frame, flush}

module _ (tr : Tracking) (sa : Assembling) where
  open tr use {
    Tracker, add_word, word_belongs_here, overflow_word, frame_word, raw_text, suppress,
    accumulated_user_facing_text, remaining_user_facing_text,
  }

  unfoldable pub slot_matches : Text → Slot tr sa → Bool
  slot_matches ctx s =
      if not s.spoken || (s.complete || not (is_some tr sa s.tracker))
      then false
      else is_empty ctx || text_eq s.context_id ctx

  unfoldable pub active_slot : Text → List (Slot tr sa) → Option (Slot tr sa)
  active_slot ctx [] = none
  active_slot ctx (s ∷ rest) = if slot_matches ctx s then some s else active_slot ctx rest

  unfoldable pub next_active_slot : Text → List (Slot tr sa) → Option (Slot tr sa)
  unfolding active_slot
  next_active_slot ctx [] = none
  next_active_slot ctx (s ∷ rest) =
      if slot_matches ctx s then active_slot ctx rest else next_active_slot ctx rest

  unfoldable pub update_active : Text → Slot tr sa → List (Slot tr sa) → List (Slot tr sa)
  update_active ctx t [] = []
  update_active ctx t (s ∷ rest) =
      if slot_matches ctx s then t ∷ rest else s ∷ update_active ctx t rest

  abbrev pub tracker_takes : Text → Option Tracker → Bool
  tracker_takes word none = false
  tracker_takes word (some t) = word_belongs_here word t

  abbrev pub slot_takes : Text → Option (Slot tr sa) → Bool
  slot_takes word none = false
  slot_takes word (some s) = tracker_takes word s.tracker

  unfoldable pub context_live : Text → Sequencer tr sa → Bool
  context_live ctx q = is_some tr sa (lookup ctx q.context_append)

  -- A word whose context is not live and assembles no sentence.
  unfoldable pub is_stale : Text → Sequencer tr sa → Bool
  unfolding context_live
  is_stale ctx q =
      not (is_empty ctx)
      && (not (context_live ctx q) && not (is_some tr sa (lookup ctx q.streaming)))

  abbrev pub hold : Text → ℕ → Text → Bool → Sequencer tr sa → Run tr sa
  hold word pts ctx inter q = (record q { buffered = q.buffered ++ held ∷ [] }, [])
    where
      held : BufferedWord
      held = record { held_word = word; held_pts = pts; held_context = ctx; held_inter = inter }

  -- `routeWord`: what it returns when it handled the word, `none` when it did not.
  unfoldable pub route_word :
      Option (Slot tr sa) → Text → ℕ → Text → Bool → Sequencer tr sa → Option (Run tr sa)
  route_word none word pts ctx inter q =
      if q.streaming_mode then some (hold word pts ctx inter q) else none
  route_word (some s) word pts ctx inter q =
      if not (is_some tr sa s.tracker) || tracker_takes word s.tracker
      then none
      else if slot_takes word (next_active_slot ctx q.slots)
      then none
      else if q.streaming_mode
      then some (hold word pts ctx inter q)
      else some (
        q,
        spoken_word (build_word_frame tr sa q.context_append word pts ctx [] false inter) ∷ [],
      )

  -- `emitWord` for a slot whose tracker has just recorded the word.
  unfoldable pub emit_word : List (Text × Bool) → Slot tr sa → Tracker → ℕ → List Out
  emit_word m s t pts =
      let text = or_empty (frame_word t) in
      let hidden = suppress t in
      (if is_empty text
        then []
        else spoken_word (
            build_word_frame tr sa m text pts s.context_id (or_empty (raw_text t)) hidden
              s.includes_inter_frame)
          ∷ [])
      ++ (if hidden
          then []
          else progress (record {
            sentence = s.frame.id;
            progress_context = s.context_id;
            whole = s.frame.text;
            accumulated = accumulated_user_facing_text t;
            remaining = remaining_user_facing_text false t;
            progress_pts = pts;
          })
            ∷ [])

  -- The word as it stands, for no slot or one with no tracker.
  abbrev pub bare_word : List (Text × Bool) → Text → ℕ → Text → Bool → List Out
  bare_word m word pts ctx inter =
      if is_empty word
      then []
      else spoken_word (build_word_frame tr sa m word pts ctx [] false inter) ∷ []

  -- The slot that took a word; a call's flag is carried onto it.
  unfoldable pub recorded : Slot tr sa → Option Tracker → Bool → Bool → Slot tr sa
  recorded s t done inter = record s {
    tracker = t;
    complete = done;
    includes_inter_frame = inter || s.includes_inter_frame;
  }

  -- The state, the frames, and what of the word runs over a slot that it completed.
  abbrev pub Step : Type 0
  Step = Sequencer tr sa × List Out × Text

  -- The word taken by the active slot `s`, with its tracker.
  unfoldable pub take_word :
      Slot tr sa → Option Tracker → Text → ℕ → Text → Bool → Sequencer tr sa → Step
  unfolding recorded emit_word
  take_word s none word pts ctx inter q =
      let s' = recorded s none false inter in
      (
        record q { slots = update_active ctx s' q.slots },
        bare_word q.context_append word pts s.context_id s'.includes_inter_frame,
        [],
      )
  take_word s (some t) word pts ctx inter q =
      let (t', done) = add_word word t in
      let s' = recorded s (some t') done inter in
      let out = emit_word q.context_append s' t' pts in
      let q' = record q { slots = update_active ctx s' q.slots } in
      let (q'', more) = flush tr sa pts q' in
      if done then (q'', out ++ more, or_empty (overflow_word t')) else (q', out, [])

  unfoldable pub take_active : Option (Slot tr sa) → Text → ℕ → Text → Bool → Sequencer tr sa → Step
  unfolding take_word
  take_active none word pts ctx inter q = (q, bare_word q.context_append word pts ctx inter, [])
  take_active (some s) word pts ctx inter q = take_word s s.tracker word pts ctx inter q

  abbrev pub unless_routed : Option (Run tr sa) → Step → Step
  unless_routed none step = step
  unless_routed (some (q, out)) step = (q, out, [])

  -- `processWordLocked` up to its recursive call on what runs over.
  unfoldable pub process_step : Text → ℕ → Text → Bool → Sequencer tr sa → Step
  unfolding take_active route_word is_stale
  process_step word pts ctx inter q =
      let active = active_slot ctx q.slots in
      let taken =
        unless_routed (route_word active word pts ctx inter q)
          (take_active active word pts ctx inter q) in
      if is_stale ctx q then (q, [], []) else taken

  abbrev pub append_out : List Out → Option (Run tr sa) → Option (Run tr sa)
  append_out out none = none
  append_out out (some (q, more)) = some (q, out ++ more)

  -- `processWordLocked`; `none` is out of fuel.
  unfoldable pub process_from : ℕ → Text → ℕ → Text → Bool → Sequencer tr sa → Option (Run tr sa)
  process_from zero word pts ctx inter q = none
  process_from (suc fuel) word pts ctx inter q =
      let (q', out, over) = process_step word pts ctx inter q in
      let rest = append_out out (process_from fuel over pts ctx false q') in
      if is_empty over then some (q', out) else rest

  -- The spoken slots still to complete: each recursive call has one fewer.
  abbrev pub open_slots : List (Slot tr sa) → ℕ
  open_slots [] = 0
  open_slots (s ∷ rest) =
      if s.spoken && not s.complete then suc (open_slots rest) else open_slots rest

  abbrev pub or_stay : Sequencer tr sa → Option (Run tr sa) → Run tr sa
  or_stay q none = (q, [])
  or_stay q (some r) = r

  unfoldable pub process_word : Text → ℕ → Text → Bool → Sequencer tr sa → Run tr sa
  process_word word pts ctx inter q =
      or_stay q (process_from (suc (open_slots q.slots)) word pts ctx inter q)
