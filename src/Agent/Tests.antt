-- ===== src/Agent/Tests.antt =====
-- The theorems on a turn at work on a short conversation: one tool call, its result, and a reply.
use kitaebot.Common.{
  ℕ, zero, suc, ◌+◌, ◌≡◌, true, false, List, [], ◌∷◌, ◌++◌, none, some, Text, codes, ok, list_key,
  nat_key, if◌then◌else◌, ◌↔◌,
}
use kitaebot.Types.{Message, ToolCall, Response, calls}
use kitaebot.Agent.Errors.{ToolError, command_failed, nonneg}
use kitaebot.Agent.Usage.{CallUsage, no_usage, add_turn, add_failed}
use kitaebot.Agent.Usage.Sums.{add_turn-add_failed}
use kitaebot.Agent.Repeats.{record_calls}
use kitaebot.Agent.Repeats.Streaks.{detector_of, Thrice, record_calls-Thrice}
use kitaebot.Agent.Strikes.{record_strike}
use kitaebot.Agent.Strikes.Counts.{strikes_of, counts, alike, record_strike-count}
use kitaebot.Agent.Hints.Once.{given, Distinct, Observation, given-Distinct}
use kitaebot.Agent.Hints.{no_hints}
use kitaebot.Agent.Escalation.{tier, retry, default}
use kitaebot.Agent.Escalation.Streaks.{table_after, streak, odd, tier-table_after}
use kitaebot.Agent.World.{Outside, Round, replied, failed}
use kitaebot.Agent.Rounds.{accept}
use kitaebot.Agent.Turn.{Course, fail_turn, run_turn}
use kitaebot.Agent.Turn.Triples.{Post}
use kitaebot.Ephemeral.{new, sub_agent}
use kitaebot.Ephemeral.Turns.{Mirrored, run_turn-Mirrored}
use kitaebot.Agent.Turn.Protocol.{run_turn-Ordered}
use kitaebot.Agent.Turn.Protocol.Rules.{Broken, pending}
use kitaebot.Agent.Turn.Limits.{Within, run_turn-requests}

-- An engine that keeps every message, and components that change nothing.
abbrev outside : Outside
outside = record {
  Engine = List Message;
  push_message = λ m e. (e ++ m ∷ [], none);
  compact_if_urgent = λ e. (e, ok none);
  assemble = λ e. ok e;
  observe_request = λ m b e. e;
  observe_tokens = λ n e. e;
  Hints = Unit {0};
  new_hints = tt;
  observe = λ name args r h. (h, none);
  json = record { Value = Text; from_str = λ t. some t; string = λ t. t; value_key = list_key };
  canonical_args = λ t. t;
  check_tool_output = λ name out. out;
  tool_error_text = λ e. codes "failed";
  turn_error_text = λ e. codes "failed";
  truncate_output = λ t n. t;
}

abbrev listing : ToolCall
listing = record { id = codes "1"; function = record { name = codes "ls"; arguments = codes "{}" } }

abbrev cost_free : CallUsage
cost_free = record {
  prompt_tokens = some 10;
  cached_tokens = none;
  provider = none;
  completion_tokens = 2;
  cost = none;
}

abbrev round_of : Response → Round
round_of response = record {
  cancelled = false;
  chat_cancelled = false;
  chat = replied response cost_free [];
  tools_cancelled = false;
  execute = λ c. ok (codes "a.txt");
}

-- The first answer calls a tool, the later ones are texts.
abbrev answer : ℕ → Response
answer n = elim n [ zero ↦ calls [] (listing ∷ []) | suc k ↦ Response.text (codes "done") ]

abbrev course : Course
course = record {
  cancelled = false;
  rounds = λ n. round_of (answer n);
  squeeze_cancelled = false;
  squeeze_answer = failed (codes "down") [];
}

run_turn-Ordered_example :
    Post outside
      (Broken outside)
      (λ output t. pending t.trace ≡ some [])
      (run_turn outside accept fail_turn 3 (codes "list") course [])
run_turn-Ordered_example = run_turn-Ordered outside accept fail_turn 3 (codes "list") course []

run_turn-Mirrored_example :
    Mirrored
      (codes "sub")
      1
      (run_turn
        (sub_agent (codes "sub") outside)
        accept
        fail_turn
        3
        (codes "list")
        course
        (new 1)).0.engine
      (run_turn
        (sub_agent (codes "sub") outside)
        accept
        fail_turn
        3
        (codes "list")
        course
        (new 1)).0.trace
run_turn-Mirrored_example =
    run_turn-Mirrored (codes "sub") 1 outside accept fail_turn 3 (codes "list") course

run_turn-requests_example :
    Within 3 1 (run_turn outside accept fail_turn 3 (codes "list") course []).0.trace
run_turn-requests_example = run_turn-requests outside accept fail_turn 3 (codes "list") course []

abbrev exit_one : ToolError
exit_one = command_failed (codes "make") (nonneg 1) []

record_strike-count_example :
    (record_strike
      (λ t. t)
      (strikes_of (λ t. t) ((codes "exec", codes "{}", exit_one) ∷ []))
      (codes "exec")
      (codes "{}")
      exit_one).1
    ≡ (if counts exit_one
        then some (
            alike
              (λ t. t)
              (codes "exec", codes "{}", exit_one)
              ((codes "exec", codes "{}", exit_one) ∷ [])
            + 1)
        else none)
record_strike-count_example =
    record_strike-count (λ t. t) (codes "exec") (codes "{}") exit_one
      ((codes "exec", codes "{}", exit_one) ∷ [])

abbrev round : List ToolCall
round = listing ∷ []

record_calls-Thrice_example :
    ((record_calls outside.json (detector_of outside.json (round ∷ round ∷ [])) round).1 ≡ true)
    ↔ Thrice outside.json (round ∷ round ∷ round ∷ [])
record_calls-Thrice_example = record_calls-Thrice outside.json round (round ∷ round ∷ [])

add_turn-add_failed_example :
    add_turn no_usage (add_failed no_usage (cost_free ∷ []))
    ≡ add_failed (add_turn no_usage no_usage) (cost_free ∷ [])
add_turn-add_failed_example = add_turn-add_failed no_usage no_usage (cost_free ∷ [])

-- Three test runs without an edit: the second brings the hint, and the third none.
abbrev reruns : List Observation
reruns =
    (codes "exec", codes "cargo test", ok (codes "done"))
    ∷ (codes "exec", codes "cargo test", ok (codes "done"))
    ∷ (codes "exec", codes "cargo test", ok (codes "done"))
    ∷ []

given-Distinct_example : Distinct (given (λ args key. some args) no_hints reruns)
given-Distinct_example = given-Distinct (λ args key. some args) reruns

tier-table_after_example :
    tier (codes "a") (table_after ((codes "a", true) ∷ []))
    ≡ (if odd (streak (codes "a") ((codes "a", true) ∷ [])) then retry else default)
tier-table_after_example = tier-table_after (codes "a") ((codes "a", true) ∷ [])
