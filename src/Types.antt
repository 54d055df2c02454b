-- ===== src/Types.antt =====
-- types.rs: messages, tool calls and the token estimate. A text is the list of its bytes.
pub mod Same
use kitaebot.Common.{
  ℕ, ◌+◌, ◌/◌, Bool, true, false, ◌&&◌, ◌||◌, List, [], ◌∷◌, Text, length, sum_of, leb, ◌==◌,
  list_key, nat_key,
}

pub record ToolFunction : Type 0 where
  pub name : Text
  pub arguments : Text

pub record ToolCall : Type 0 where
  pub id : Text
  pub function : ToolFunction

pub data Message : Type 0 where
  assistant system user : Text → Message
  tool : Text → Text → Message
  tool_calls : Text → List ToolCall → Message

pub data Response : Type 0 where
  text : Text → Response
  calls : Text → List ToolCall → Response

unfoldable pub content : Message → Text
content (assistant t) = t
content (system t) = t
content (user t) = t
content (tool _ t) = t
content (tool_calls t _) = t

call_chars : ToolCall → ℕ
call_chars c = length c.function.name + length c.function.arguments

unfoldable pub char_count : Message → ℕ
unfolding call_chars content
char_count (tool_calls t cs) = length t + sum_of call_chars cs
char_count m = length (content m)

unfoldable pub estimate_tokens_from_chars : ℕ → ℕ
estimate_tokens_from_chars chars = chars / 4

unfoldable pub estimate_tokens : Text → ℕ
unfolding estimate_tokens_from_chars
estimate_tokens s = estimate_tokens_from_chars (length s)

unfoldable pub token_estimate : Message → ℕ
unfolding estimate_tokens_from_chars char_count
token_estimate m = estimate_tokens_from_chars (char_count m)

is_name_byte : ℕ → Bool
is_name_byte b =
    (leb b'a' b && leb b b'z')
    || (leb b'A' b && leb b b'Z')
    || (leb b'0' b && leb b b'9')
    || b == b'_'
    || b == b'-'

all_name_bytes : Text → Bool
unfolding is_name_byte
all_name_bytes [] = true
all_name_bytes (b ∷ s) = is_name_byte b && all_name_bytes s

unfoldable pub is_valid_tool_name : Text → Bool
unfolding all_name_bytes
is_valid_tool_name [] = false
is_valid_tool_name (b ∷ s) = all_name_bytes (b ∷ s)
