-- ===== src/Context/Summary/Measure.antt =====
-- utils/context/summarization.go: the estimate of the tokens of a conversation.
use voxigo.Prelude.{ℕ, ◌+◌, ◌/◌, ◌*◌, List, [], ◌∷◌, ◌++◌, Text, if◌then◌else◌, length}
use voxigo.Context.Summary.{ToolCall, Message, is_empty, is_llm_specific}

unfoldable pub chars_per_token : ℕ
chars_per_token = 4

unfoldable pub token_overhead_per_message : ℕ
token_overhead_per_message = 10

unfoldable pub estimate_tokens : Text → ℕ
unfolding chars_per_token
estimate_tokens t = if is_empty t then 0 else length t / chars_per_token

unfoldable pub estimate_calls : List ToolCall → ℕ
unfolding estimate_tokens
estimate_calls [] = 0
estimate_calls (c ∷ cs) = estimate_tokens (c.name ++ c.args) + estimate_calls cs

unfoldable pub estimate_message : Message → ℕ
unfolding estimate_tokens estimate_calls token_overhead_per_message is_llm_specific
estimate_message m =
    if is_llm_specific m
    then 0
    else token_overhead_per_message
      + (estimate_tokens m.text
          + (estimate_calls m.tool_calls + length m.tool_results * token_overhead_per_message))

unfoldable pub estimate_messages_tokens : List Message → ℕ
unfolding estimate_message
estimate_messages_tokens [] = 0
estimate_messages_tokens (m ∷ ms) = estimate_message m + estimate_messages_tokens ms
