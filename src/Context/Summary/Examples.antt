-- ===== src/Context/Summary/Examples.antt =====
-- utils/context/summarization.go on short conversations.
use voxigo.Prelude.{
  ◌≡◌, ◌+◌, ◌<◌, ◌≤◌, ◌-◌, refl, Option, some, none, List, [], ◌∷◌, Text, bytes, text_eq,
  if◌then◌else◌, take, drop,
}
use voxigo.Context.Summary.{
  Role, system, user, assistant, Message, Payload, Selection, select_messages_to_summarize,
  start_of, is_llm_specific,
}
use voxigo.Context.Summary.Format.{format_messages_for_summary}
use voxigo.Context.Summary.Selected.{selection_is_middle}

-- A decoder that knows one text.
abbrev decode : Text → Option Payload
decode t =
    if text_eq t (bytes "{running}")
    then some (record {
      kind = bytes "async_tool";
      status = bytes "running";
      tool_call_id = bytes "b";
      description = [];
      result = none;
    })
    else none

abbrev says : Role → Message
says r = record { role = r; text = bytes "hello"; tool_calls = []; tool_results = []; llm = [] }

abbrev call : Text → Message
call id = record (says assistant) {
  tool_calls = record { id = id; name = bytes "f"; args = [] } ∷ [];
}

abbrev result : Text → Text → Message
result id content = record (says user) {
  tool_results = record { id = id; name = bytes "f"; content = content } ∷ [];
}

abbrev talk : List Message
talk =
    says system
    ∷ call (bytes "a")
    ∷ result (bytes "a") (bytes "7")
    ∷ call (bytes "b")
    ∷ result (bytes "b") (bytes "{running}")
    ∷ says user
    ∷ []

abbrev middle : Selection
middle = record {
  messages = call (bytes "a") ∷ result (bytes "a") (bytes "7") ∷ [];
  last_summarized_index = 2;
}

-- The call that still runs is kept out.
selects_middle : select_messages_to_summarize decode talk 1 ≡ some middle
unfolding select_messages_to_summarize
selects_middle = refl

selection_is_middle_example :
    (start_of talk ≡ 1)
    × (start_of talk ≤ 2)
    × (2 + 1 < 6)
    × (middle.messages ≡ take (3 - start_of talk) (drop (start_of talk) talk))
unfolding start_of is_llm_specific
selection_is_middle_example = selection_is_middle decode talk 1 middle selects_middle

-- The first call is summarized, and its result is kept.
cut_between_call_and_result :
    select_messages_to_summarize decode
      (call (bytes "a") ∷ call (bytes "b") ∷ result (bytes "a") (bytes "7") ∷ says user ∷ [])
      1
    ≡ some (record { messages = call (bytes "a") ∷ []; last_summarized_index = 0 })
unfolding select_messages_to_summarize
cut_between_call_and_result = refl

transcript :
    format_messages_for_summary middle.messages
    ≡ bytes "ASSISTANT: hello\n\nTOOL_CALL: f()\n\nUSER: hello\n\nTOOL_RESULT[a]: 7"
unfolding format_messages_for_summary
transcript = refl
