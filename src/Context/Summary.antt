-- ===== src/Context/Summary.antt =====
-- utils/context/summarization.go, with the messages of frames/llm_context.go and the reading of an
-- async tool's message of frames/async_tool.go: which messages of a conversation are summarized.
-- What `encoding/json` makes of a text is a parameter.
pub mod Measure
pub mod Format
pub mod Answered
pub mod Selected
mod Examples
use voxigo.Prelude.{
  ℕ, zero, suc, ◌+◌, ◌-◌, ◌/◌, ◌*◌, Bool, true, false, not, ◌&&◌, ◌||◌, Option, none, some, List,
  [], ◌∷◌, ◌++◌, Text, bytes, text_eq, if◌then◌else◌, ltb, leb, length, get_elem?, take, drop,
  lookup, insert, delete, map,
}

pub data Role : Type 0 where
  system user assistant developer : Role

pub record ToolCall : Type 0 where
  pub id : Text
  pub name : Text
  pub args : Text

pub record ToolResult : Type 0 where
  pub id : Text
  pub name : Text
  pub content : Text

-- `llm` is empty on a message in the universal format; the content of any other is left out.
pub record Message : Type 0 where
  pub role : Role
  pub text : Text
  pub tool_calls : List ToolCall
  pub tool_results : List ToolResult
  pub llm : Text

-- `asyncToolPayload`; `result` is none when nil.
pub record Payload : Type 0 where
  pub kind : Text
  pub status : Text
  pub tool_call_id : Text
  pub description : Text
  pub result : Option Text

abbrev pub is_empty : Text → Bool
is_empty [] = true
is_empty (c ∷ cs) = false

unfoldable pub is_llm_specific : Message → Bool
is_llm_specific m = not (is_empty m.llm)

unfoldable pub is_assistant : Role → Bool
is_assistant assistant = true
is_assistant _ = false

-- Calls waiting for their answer: the id of each and the message that requested it.
abbrev pub Pending : Type 0
Pending = List (Text × ℕ)

unfoldable pub request_calls : ℕ → List ToolCall → Pending → Pending
request_calls i [] p = p
request_calls i (c ∷ cs) p = request_calls i cs (if is_empty c.id then p else insert c.id i p)

abbrev pub is_pending : Option ℕ → Bool
is_pending none = false
is_pending (some i) = true

-- `json.Unmarshal` fails where `decode` gives none.
unfoldable pub is_running : Option Payload → Bool
is_running none = false
is_running (some p) = text_eq p.kind (bytes "async_tool") && text_eq p.status (bytes "running")

unfoldable pub async_tool_content : Message → Option Text
async_tool_content m = elim m.role [
  | developer ↦ if is_empty m.text then none else some m.text
  | _ ↦ elim m.tool_results [
    | [] ↦ none
    | r ∷ rs ↦ elim rs [ [] ↦ if is_empty r.content then none else some r.content | s ∷ ss ↦ none ]
  ]
]

-- The call that a final async message answers.
unfoldable pub final_of : Option Payload → Option Text
final_of none = none
final_of (some p) =
    if not (text_eq p.kind (bytes "async_tool")) || is_empty p.tool_call_id
    then none
    else elim p.result [
      | none ↦ none
      | some r ↦ if text_eq p.status (bytes "finished") then some p.tool_call_id else none
    ]

abbrev pub sooner : ℕ → Option ℕ → Option ℕ
sooner i none = some i
sooner i (some j) = if ltb i j then some i else some j

unfoldable pub earliest_of : Pending → Option ℕ
earliest_of [] = none
earliest_of ((id, i) ∷ p) = sooner i (earliest_of p)

abbrev pub begins_with_system : List Message → Bool
begins_with_system [] = false
begins_with_system (m ∷ ms) = not (is_llm_specific m) && elim m.role [ system ↦ true | _ ↦ false ]

unfoldable pub start_of : List Message → ℕ
unfolding is_llm_specific
start_of ms = if begins_with_system ms then 1 else 0

abbrev pub cut_at : Option ℕ → ℕ → ℕ
cut_at none end = end
cut_at (some i) end = if ltb i end then i else end

-- MessagesToSummarize; none when there is nothing to summarize.
pub record Selection : Type 0 where
  pub messages : List Message
  pub last_summarized_index : ℕ

module _ (decode : Text → Option Payload) where
  unfoldable pub is_tool_result_pending : Text → Bool
  unfolding is_running
  is_tool_result_pending content =
      text_eq content (bytes "IN_PROGRESS") || is_running (decode content)

  abbrev decoded : Option Text → Option Payload
  decoded none = none
  decoded (some t) = decode t

  -- `ParseAsyncToolMessage`, as far as it reports a message of kind AsyncToolFinal.
  unfoldable pub async_final : Message → Option Text
  unfolding async_tool_content final_of
  async_final m = final_of (decoded (async_tool_content m))

  unfoldable pub resolve_results : List ToolResult → Pending → Pending
  unfolding is_tool_result_pending
  resolve_results [] p = p
  resolve_results (r ∷ rs) p = resolve_results rs (
      if is_empty r.id || not (is_pending (lookup r.id p))
      then p
      else if is_tool_result_pending r.content
      then p
      else delete r.id p)

  abbrev resolve_final : Option Text → Pending → Pending
  resolve_final none p = p
  resolve_final (some id) p = delete id p

  -- A round of the loop of `earliestUnresolvedToolCall`.
  unfoldable pub note_message : ℕ → Message → Pending → Pending
  unfolding is_llm_specific is_assistant request_calls resolve_results async_final
  note_message i m p =
      if is_llm_specific m
      then p
      else let requested = if is_assistant m.role then request_calls i m.tool_calls p else p in
        resolve_final (async_final m) (resolve_results m.tool_results requested)

  abbrev note_at : ℕ → Option Message → Pending → Pending
  note_at i none p = p
  note_at i (some m) p = note_message i m p

  -- The loop from the `i`-th message on, with `n` rounds left.
  unfoldable pub scan : List Message → ℕ → ℕ → Pending → Pending
  unfolding note_message
  scan ms zero i p = p
  scan ms (suc n) i p = scan ms n (suc i) (note_at i (get_elem? ms i) p)

  -- The index is none where the code returns -1.
  unfoldable pub earliest_unresolved_tool_call : List Message → ℕ → ℕ → Option ℕ
  unfolding scan earliest_of
  earliest_unresolved_tool_call ms start end = earliest_of (scan ms (end - start) start [])

  unfoldable pub end_of : List Message → ℕ → ℕ → ℕ
  unfolding earliest_unresolved_tool_call
  end_of ms start end = cut_at (earliest_unresolved_tool_call ms start end) end

  unfoldable pub select_messages_to_summarize : List Message → ℕ → Option Selection
  unfolding start_of end_of
  select_messages_to_summarize ms min_to_keep =
      if leb (length ms) min_to_keep
      then none
      else let start = start_of ms in
        let end = length ms - min_to_keep in
        if leb end start
        then none
        else let cut = end_of ms start end in
          if leb cut start
          then none
          else some (record {
            messages = take (cut - start) (drop start ms);
            last_summarized_index = cut - 1;
          })
