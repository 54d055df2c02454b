-- ===== src/Agent/Results.antt =====
-- agent/mod.rs: `record_tool_results`, which turns the results of one round of tool calls into
-- messages, hints, strikes and perhaps a halt.
use kitaebot.Common.{
  ℕ, List, [], ◌∷◌, ◌++◌, Option, none, some, Text, codes, leb, Result, ok, err, if◌then◌else◌,
}
use kitaebot.Types.{tool, ToolCall}
use kitaebot.Agent.Errors.{ToolError, timeout, error_class, TurnOutput, tool_halt}
use kitaebot.Agent.Strikes.{record_strike, augment_notice, timeout_notice, strike_halt}
use kitaebot.Agent.World.{Outside, M, pure, bind, emit, tool_end, push_quietly}

-- What one result comes to: the text for the model, the error shown to the channel, the halt.
pub record Judged : Type 0 where
  pub content : Text
  pub error : Option Text
  pub halt : Option TurnOutput

module _ (o : Outside) where
  open o use {observe, canonical_args, check_tool_output, tool_error_text}

  infixl 5 ◌>>=◌ ◌>>◌
  abbrev ◌>>=◌ : {A B : Type 0} → M o A → (A → M o B) → M o B
  m >>= f = bind o m f

  abbrev ◌>>◌ : {B : Type 0} → M o (Unit {0}) → M o B → M o B
  m >> n = bind o m (λ _. n)

  unfoldable pub observed : Result ToolError Text → Result Text Text
  observed (ok output) = ok output
  observed (err e) = err (tool_error_text e)

  unfoldable pub hint : ToolCall → Result ToolError Text → M o (Option Text)
  unfolding observed
  hint c result t =
      let (hints', h) = observe c.function.name c.function.arguments (observed result) t.hints in
      (record t { hints = hints' }, ok h)

  -- Timeouts get their own notice; other errors are augmented; blocked ones stay as they are.
  unfoldable pub error_content : ToolError → Option ℕ → Text
  error_content e none = codes "Error: " ++ tool_error_text e
  error_content (timeout command secs evidence) (some n) = timeout_notice command secs n
  error_content e (some n) = augment_notice (codes "Error: " ++ tool_error_text e) n

  unfoldable pub halted : ToolCall → ToolError → Option ℕ → Option TurnOutput
  halted c e none = none
  halted c e (some n) =
      if leb strike_halt n
      then some (tool_halt c.function.name c.function.arguments (error_class e) n)
      else none

  unfoldable pub judge : ToolCall → Result ToolError Text → M o Judged
  unfolding error_content halted
  judge c (ok output) t = (
    t,
    ok (record { content = check_tool_output c.function.name output; error = none; halt = none }),
  )
  judge c (err e) t =
      let (strikes, count) =
        record_strike canonical_args t.tool_strikes c.function.name c.function.arguments e in
      (
        record t { tool_strikes = strikes },
        ok (record {
          content = error_content e count;
          error = some (tool_error_text e);
          halt = halted c e count;
        }),
      )

  -- One result: hints, text, activity and the message. An engine that fails is left for the next
  -- `assemble`.
  unfoldable pub record_one :
      ToolCall × Result ToolError Text → M o (Option TurnOutput × Option Text)
  unfolding hint
  record_one (c, result) = do
    h ← hint c result
    judged ← judge c result
    emit o (tool_end c.function.name judged.error)
    push_quietly o (tool c.id judged.content)
    pure o (judged.halt, h)

  unfoldable pub or_else : Option TurnOutput → Option TurnOutput → Option TurnOutput
  or_else halt none = halt
  or_else halt (some h) = some h

  unfoldable pub with_hint : List Text → Option Text → List Text
  with_hint hints none = hints
  with_hint hints (some h) = hints ++ h ∷ []

  -- The last halt stands; every result is recorded before it takes effect.
  unfoldable pub record_tool_results :
      List (ToolCall × Result ToolError Text)
      → Option TurnOutput
      → List Text
      → M o (Option TurnOutput × List Text)
  unfolding or_else with_hint
  record_tool_results [] halt hints = pure o (halt, hints)
  record_tool_results (r ∷ rs) halt hints = do
    (h, new_hint) ← record_one r
    record_tool_results rs (or_else halt h) (with_hint hints new_hint)
