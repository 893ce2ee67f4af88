-- ===== src/Context/Summary/Format.antt =====
-- utils/context/summarization.go: the transcript that is summarized.
use voxigo.Prelude.{List, [], ◌∷◌, ◌++◌, Text, bytes, if◌then◌else◌, map}
use voxigo.Context.Summary.{
  Role, system, user, assistant, developer, ToolCall, ToolResult, Message, is_empty,
  is_llm_specific,
}

unfoldable pub or_unknown : Text → Text
or_unknown t = if is_empty t then bytes "unknown" else t

unfoldable pub upper_role : Role → Text
upper_role system = bytes "SYSTEM"
upper_role user = bytes "USER"
upper_role assistant = bytes "ASSISTANT"
upper_role developer = bytes "DEVELOPER"

unfoldable pub format_call : ToolCall → Text
unfolding or_unknown
format_call c = bytes "TOOL_CALL: " ++ (or_unknown c.name ++ (bytes "(" ++ (c.args ++ bytes ")")))

unfoldable pub format_result : ToolResult → Text
unfolding or_unknown
format_result r = bytes "TOOL_RESULT[" ++ (or_unknown r.id ++ (bytes "]: " ++ r.content))

-- The parts of one message.
unfoldable pub format_message : Message → List Text
unfolding is_llm_specific upper_role format_call format_result
format_message m =
    if is_llm_specific m
    then []
    else let said =
        if is_empty m.text then [] else (upper_role m.role ++ (bytes ": " ++ m.text)) ∷ [] in
      said ++ (map format_call m.tool_calls ++ map format_result m.tool_results)

unfoldable pub format_messages : List Message → List Text
unfolding format_message
format_messages [] = []
format_messages (m ∷ ms) = format_message m ++ format_messages ms

-- `strings.Join` with a blank line.
abbrev pub join_from : Text → List Text → Text
join_from t [] = t
join_from t (u ∷ us) = t ++ (bytes "\n\n" ++ join_from u us)

abbrev pub join_parts : List Text → Text
join_parts [] = []
join_parts (t ∷ ts) = join_from t ts

unfoldable pub format_messages_for_summary : List Message → Text
unfolding format_messages
format_messages_for_summary ms = join_parts (format_messages ms)
