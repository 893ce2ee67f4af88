-- ===== src/Context/Summary/Selected.antt =====
-- utils/context/summarization.go: what is folded into a summary.
use voxigo.Prelude.{
  ℕ, suc, ◌+◌, ◌-◌, ◌≤◌, ◌<◌, ◌≡◌, refl, sym, ap, ◌∙◌, Option, none, some, List, Text, arith,
  length, take, drop, if◌then◌else◌,
}
use voxigo.Context.Summary.{
  Message, Payload, earliest_unresolved_tool_call, start_of, cut_at, end_of, begins_with_system,
  Selection, select_messages_to_summarize,
}

cut_at-le : (o : Option ℕ) (end : ℕ) → cut_at o end ≤ end
cut_at-le none end = omega arith
cut_at-le (some i) end = ground arith

module _ (decode : Text → Option Payload) where
  -- What a selection is made of.
  abbrev IsCut : List Message → ℕ → Selection → Type 0
  IsCut ms keep sel =
      let start = start_of ms in
      let cut = end_of decode ms start (length ms - keep) in
      (start < cut)
      × (cut ≤ length ms - keep)
      × (sel.messages ≡ take (cut - start) (drop start ms))
      × (suc sel.last_summarized_index ≡ cut)

  select-IsCut :
      (ms : List Message) (keep : ℕ) (sel : Selection)
      → select_messages_to_summarize decode ms keep ≡ some sel
      → IsCut ms keep sel
  unfolding select_messages_to_summarize
  select-IsCut ms keep sel h =
      let start = start_of ms in
      let within : end_of decode ms start (length ms - keep) ≤ length ms - keep =
        unfold end_of in
        cut_at-le (earliest_unresolved_tool_call decode ms start (length ms - keep)) _ in
      ground arith

  -- What is folded into a summary is a middle part: the messages that are selected are those from
  -- the first on (from the second on where the first is a system message) up to the index that is
  -- reported, which lies before the messages to keep.
  pub selection_is_middle :
      (ms : List Message) (keep : ℕ) (sel : Selection)
      → select_messages_to_summarize decode ms keep ≡ some sel
      → (start_of ms ≡ (if begins_with_system ms then 1 else 0))
        × (start_of ms ≤ sel.last_summarized_index)
        × (sel.last_summarized_index + keep < length ms)
        × (sel.messages
            ≡ take (suc sel.last_summarized_index - start_of ms) (drop (start_of ms) ms))
  unfolding start_of
  selection_is_middle ms keep sel h =
      let (some_left, fits, messages, last) = select-IsCut ms keep sel h in
      (
        refl,
        omega arith,
        omega arith,
        messages ∙ ap (λ n. take (n - start_of ms) (drop (start_of ms) ms)) (sym last),
      )
