-- ===== src/Lcm/Summarize.antt =====
-- context/lcm/summarize.rs: the ladder of summaries, and the text of the last level.
pub mod Ladder
use kitaebot.Common.{
  ℕ, ◌*◌, Bool, true, false, ◌&&◌, List, [], ◌∷◌, ◌++◌, Option, none, some, Text, codes, Result, ok,
  err, decimal, length, sum_of, leb, ltb, if◌then◌else◌,
}
use kitaebot.Types.{
  Message, ToolCall, assistant, system, user, tool, tool_calls, token_estimate, estimate_tokens,
}
use kitaebot.Texts.{prefix}
use kitaebot.Lcm.Prompts.{level_1_prompt, level_2_prompt}

abbrev pub level_3_token_budget : ℕ
level_3_token_budget = 512

abbrev pub degenerate_floor_chars : ℕ
degenerate_floor_chars = 500

abbrev pub degenerate_floor_min_input_chars : ℕ
degenerate_floor_min_input_chars = 4 * degenerate_floor_chars

pub data EscalationLevel : Type 0 where
  normal aggressive deterministic : EscalationLevel

unfoldable pub tag : EscalationLevel → Text
tag normal = codes "level1"
tag aggressive = codes "level2"
tag deterministic = codes "level3-truncate"

pub record EscalationOutcome : Type 0 where
  pub content : Text
  pub level : EscalationLevel
  pub input_tokens : ℕ
  pub output_tokens : ℕ

unfoldable pub estimate_messages_tokens : List Message → ℕ
estimate_messages_tokens messages = sum_of token_estimate messages

unfoldable pub accept : Text → ℕ → Option ℕ
accept content input_tokens =
    if leb input_tokens (estimate_tokens content)
    then none
    else if ltb (length content) degenerate_floor_chars
        && leb degenerate_floor_min_input_chars (input_tokens * 4)
    then none
    else some (estimate_tokens content)

unfoldable pub format_calls : List ToolCall → Text
format_calls [] = []
format_calls (c ∷ cs) =
    codes "\n  [tool_call] "
    ++ c.function.name
    ++ codes "("
    ++ c.function.arguments
    ++ codes ")"
    ++ format_calls cs

unfoldable pub format_message : Message → Text
unfolding format_calls
format_message (assistant content) = codes "[assistant] " ++ content
format_message (system content) = codes "[system] " ++ content
format_message (tool call_id content) = codes "[tool:" ++ call_id ++ codes "] " ++ content
format_message (tool_calls content calls) = codes "[assistant] " ++ content ++ format_calls calls
format_message (user content) = codes "[user] " ++ content

unfoldable pub format_messages_for_summary : List Message → Text
unfolding format_message
format_messages_for_summary [] = []
format_messages_for_summary (m ∷ ms) =
    format_message m ++ codes "\n" ++ format_messages_for_summary ms

unfoldable pub truncation_note : ℕ → ℕ → Text
truncation_note input_tokens max_tokens =
    codes "\n\n[Truncated from "
    ++ decimal input_tokens
    ++ codes " tokens; "
    ++ decimal max_tokens
    ++ codes " tokens preserved.]"

unfoldable pub truncate_messages : List Message → ℕ → ℕ → Text
unfolding truncation_note
truncate_messages messages max_tokens input_tokens =
    let formatted = format_messages_for_summary messages in
    if leb (length formatted) (max_tokens * 4)
    then formatted
    else prefix formatted (max_tokens * 4) ++ truncation_note input_tokens max_tokens

unfoldable pub accepted : Result Text Text → ℕ → Option (Text × ℕ)
unfolding accept
accepted (err e) input_tokens = none
accepted (ok content) input_tokens = elim (accept content input_tokens) [
  | none ↦ none
  | some output_tokens ↦ some (content, output_tokens)
]

unfoldable pub outcome_of : EscalationLevel → ℕ → Text × ℕ → EscalationOutcome
outcome_of level input_tokens (content, output_tokens) = record {
  content = content;
  level = level;
  input_tokens = input_tokens;
  output_tokens = output_tokens;
}

unfoldable pub level_3 : List Message → EscalationOutcome
unfolding truncate_messages outcome_of
level_3 messages =
    let input_tokens = estimate_messages_tokens messages in
    let content = truncate_messages messages level_3_token_budget input_tokens in
    outcome_of deterministic input_tokens (content, estimate_tokens content)

-- `call` is one request to the model, in a world that the request may change.
module _ {W : Type 0} (call : Text → W → W × Result Text Text) where
  unfoldable pub level_2 : List Message → W → W × EscalationOutcome
  unfolding accepted outcome_of
  level_2 messages w =
      let input_tokens = estimate_messages_tokens messages in
      let (w', answer) = call level_2_prompt w in
      elim (accepted answer input_tokens) [
        | none ↦ (w', level_3 messages)
        | some found ↦ (w', outcome_of aggressive input_tokens found)
      ]

  unfoldable pub summarize_with_escalation : List Message → W → W × EscalationOutcome
  unfolding accepted outcome_of
  summarize_with_escalation messages w =
      let input_tokens = estimate_messages_tokens messages in
      let (w', answer) = call level_1_prompt w in
      elim (accepted answer input_tokens) [
        | none ↦ level_2 messages w'
        | some found ↦ (w', outcome_of normal input_tokens found)
      ]
