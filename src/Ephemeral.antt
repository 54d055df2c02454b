-- ===== src/Ephemeral.antt =====
-- context/ephemeral.rs: the context of a sub-agent's turn, which is a list of messages.
pub mod Turns
use kitaebot.Common.{ℕ, ◌-◌, ◌^◌, List, [], ◌∷◌, ◌++◌, Option, none, some, Text, Result, ok, length}
use kitaebot.Types.{Message, system, tool}
use kitaebot.Texts.{truncate_tool_output}
use kitaebot.Lcm.Summarize.{estimate_messages_tokens}
use kitaebot.Lcm.Compaction.{CompactionEvent}
use kitaebot.Lcm.Engine.{ContextStats}
use kitaebot.Agent.World.{Outside}

pub record EphemeralSession : Type 0 where
  pub messages : List Message
  pub tool_output_tokens : ℕ

unfoldable pub new : ℕ → EphemeralSession
new tool_output_tokens = record { messages = []; tool_output_tokens = tool_output_tokens }

-- Only a tool's result is cut.
unfoldable pub cut_result : ℕ → Message → Message
cut_result n (tool call_id content) = tool call_id (truncate_tool_output content n)
cut_result n other = other

unfoldable pub push_message : Message → EphemeralSession → EphemeralSession
unfolding cut_result
push_message m e = record e { messages = e.messages ++ cut_result e.tool_output_tokens m ∷ [] }

unfoldable pub assemble : Text → EphemeralSession → List Message
assemble system_prompt e = system system_prompt ∷ e.messages

unfoldable pub observe_tokens : ℕ → EphemeralSession → EphemeralSession
observe_tokens prompt_tokens e = e

-- The trait's own: an engine that does not ride the cache drops the request.
unfoldable pub observe_request : List Message → EphemeralSession → EphemeralSession
observe_request messages e = e

unfoldable pub compact_if_urgent : EphemeralSession → EphemeralSession × Option CompactionEvent
compact_if_urgent e = (e, none)

unfoldable pub force_compact : EphemeralSession → EphemeralSession × CompactionEvent
force_compact e =
    let tokens = estimate_messages_tokens e.messages in
    (e, record { before = tokens; after = tokens })

unfoldable pub clear : EphemeralSession → EphemeralSession
clear e = record e { messages = [] }

unfoldable pub stats : EphemeralSession → ContextStats
stats e = record {
  token_estimate = estimate_messages_tokens e.messages;
  budget = 2 ^ 64 - 1;
  message_count = length e.messages;
}

unfoldable pub both_counts : Option CompactionEvent → Option (ℕ × ℕ)
both_counts none = none
both_counts (some event) = some (event.before, event.after)

-- The components of a turn, with this engine under a system prompt.
abbrev pub sub_agent : Text → Outside → Outside
sub_agent system_prompt o = record {
  Engine = EphemeralSession;
  push_message = λ m e. (push_message m e, none);
  compact_if_urgent = λ e. let (e', event) = compact_if_urgent e in (e', ok (both_counts event));
  assemble = λ e. ok (assemble system_prompt e);
  observe_request = λ messages offered e. observe_request messages e;
  observe_tokens = λ n e. observe_tokens n e;
  Hints = o.Hints;
  new_hints = o.new_hints;
  observe = o.observe;
  json = o.json;
  canonical_args = o.canonical_args;
  check_tool_output = o.check_tool_output;
  tool_error_text = o.tool_error_text;
  turn_error_text = o.turn_error_text;
  truncate_output = o.truncate_output;
}
