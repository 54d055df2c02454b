-- ===== src/Lcm/Store/Tests.antt =====
-- The parts of the context engine at work on a few messages.
use kitaebot.Common.{
  ℕ, zero, suc, ◌≤◌, ◌+◌, ◌≡◌, refl, List, [], ◌∷◌, ◌++◌, none, some, Text, codes, Result, ok, err,
  length, arith, All,
}
use kitaebot.Types.{Message, ToolCall, user, assistant, tool, tool_calls, system}
use kitaebot.Types.Same.{message_key}
use kitaebot.Lcm.Summarize.{summarize_with_escalation, level_3}
use kitaebot.Lcm.Summarize.Ladder.{Promise, summarize-Promise}
use kitaebot.Lcm.Store.{Store, MessageRow, message_row, repair_dangling_tool_calls, dangling}
use kitaebot.Lcm.Store.Answered.{Closed}
use kitaebot.Lcm.Store.Ordered.{Span, Ascending}
use kitaebot.Lcm.Store.Roundtrip.{Storable}
use kitaebot.Lcm.Store.Repair.{repair_dangling_tool_calls-repaired}
use kitaebot.Lcm.Ride.{prefix_end}
use kitaebot.Lcm.Ride.Alignment.{prefix_end-last}
use kitaebot.Lcm.Assemble.{assemble_sync}
use kitaebot.Lcm.Assemble.Faithful.{push_all, push_all-assemble_sync}
use kitaebot.Lcm.Transcript.{pending_rows, span_since}
use kitaebot.Lcm.Transcript.Greedy.{InOrder, Clamped, span_since-Clamped}

abbrev listing : ToolCall
listing = record { id = codes "1"; function = record { name = codes "ls"; arguments = codes "{}" } }

abbrev talk : List Message
talk = user (codes "hi") ∷ tool_calls (codes "") (listing ∷ []) ∷ []

abbrev empty : Store
empty = record {
  last_rowid = 0;
  messages = [];
  items = [];
  summaries = [];
  summary_messages = [];
  summary_parents = [];
  summary_files = [];
  large_files = [];
}

talk-Storable : All Storable talk
unfolding Storable kitaebot.Lcm.Store.Roundtrip.ValidCall kitaebot.Types.is_valid_tool_name
talk-Storable = (tt, ((refl, tt), tt))

push_all-assemble_sync_example :
    (s' : Store) × (push_all (codes "2025") talk empty ≡ ok s')
    × (assemble_sync (λ t. none) (codes "be brief") s' ≡ ok (system (codes "be brief") ∷ talk))
push_all-assemble_sync_example =
    push_all-assemble_sync (λ t. none) (codes "2025") (codes "be brief") talk empty refl
      talk-Storable

-- A conversation that ends in a call without a result.
abbrev cut_off : Store
cut_off = record empty {
  last_rowid = 1;
  messages = message_row 1 0 (codes "2025") (tool_calls (codes "") (listing ∷ [])) ∷ [];
}

cut_off_dangles : dangling cut_off ≡ codes "1" ∷ []
unfolding dangling message_row
cut_off_dangles = refl

cut_off-Ascending : Ascending cut_off.items
unfolding Ascending Span
cut_off-Ascending = (0, omega arith)

repair_dangling_tool_calls-repaired_example :
    (s' : Store) × (repair_dangling_tool_calls (codes "2025") cut_off ≡ ok s')
    × Closed s'.messages
    × (repair_dangling_tool_calls (codes "2025") s' ≡ ok s')
repair_dangling_tool_calls-repaired_example =
    repair_dangling_tool_calls-repaired (codes "2025") cut_off cut_off-Ascending

-- A model that fails the first request and answers the second.
abbrev second_try : Text → ℕ → ℕ × Result Text Text
second_try prompt zero = (1, err (codes "busy"))
second_try prompt (suc n) = (2, ok (codes "ok"))

summarize-Promise_example : Promise talk (summarize_with_escalation second_try talk 0).1
summarize-Promise_example = summarize-Promise second_try talk 0

abbrev hello : Message
hello = user (codes "hello")

ends_at_two : prefix_end (hello ∷ hello ∷ assistant [] ∷ []) (hello ∷ []) ≡ some 2
unfolding prefix_end kitaebot.Types.Same.message_code
ends_at_two = refl

prefix_end-last_example :
    (end : ℕ) × (prefix_end (hello ∷ [] ++ (hello ∷ [] ++ assistant [] ∷ [])) (hello ∷ [])
      ≡ some end)
    × ((front back : List Message) × (hello ∷ [] ++ (hello ∷ [] ++ assistant [] ∷ [])
          ≡ front ++ (hello ∷ [] ++ back))
        × (end ≡ length front + length (hello ∷ [])))
    × (1 + 1 ≤ end)
prefix_end-last_example = prefix_end-last hello [] (hello ∷ []) (assistant [] ∷ [])

abbrev row_of : ℕ → ℕ → MessageRow
row_of n size = record {
  message_id = n;
  seq = n;
  role = codes "user";
  content = codes "text";
  token_count = size;
  created_at = codes "2025";
  parts = [];
}

abbrev long_talk : List MessageRow
long_talk = row_of 0 9 ∷ row_of 1 20 ∷ row_of 2 5 ∷ []

long_talk-InOrder : InOrder 0 long_talk
unfolding InOrder
long_talk-InOrder =
    (omega arith, omega arith, (omega arith, omega arith, (omega arith, omega arith, tt)))

span_since-Clamped_example : Clamped 10 (pending_rows 1 long_talk) (span_since 1 10 long_talk)
span_since-Clamped_example = span_since-Clamped 10 1 long_talk long_talk-InOrder

-- One message over the budget is handed out alone.
one_large : span_since 1 10 long_talk ≡ row_of 1 20 ∷ []
unfolding span_since
one_large = refl

-- A short message is longer once the last level has put its role in front.
short_grows :
    (level_3 (user (codes "hi") ∷ [])).input_tokens + 2
    ≡ (level_3 (user (codes "hi") ∷ [])).output_tokens
unfolding level_3 kitaebot.Lcm.Summarize.estimate_messages_tokens kitaebot.Types.token_estimate
    kitaebot.Types.estimate_tokens kitaebot.Lcm.Summarize.format_messages_for_summary
short_grows = refl
