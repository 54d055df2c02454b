-- ===== src/Agent/Rounds.antt =====
-- agent/mod.rs: one iteration of `turn_loop`: the emergency compaction, the checkpoint, the
-- request to the provider, and the branch of a text or of tool calls.
pub mod Policy
use kitaebot.Common.{
  ℕ, ◌+◌, ◌/◌, ◌<◌, ◌≡◌, Bool, true, false, not, ◌&&◌, ◌||◌, List, [], ◌∷◌, ◌++◌, map, length,
  Option, none, some, Text, codes, leb, ltb, ◌==◌, Result, ok, err, if◌then◌else◌,
}
use kitaebot.Types.{Message, system, assistant, tool, tool_calls, ToolCall, Response, calls}
use kitaebot.Agent.Errors.{
  ToolError, blocked, TurnError, engine_failed, provider_failed, no_progress, TurnOutput,
  policy_halt,
}
use kitaebot.Agent.Usage.{CallUsage, TurnUsage, add_call, add_failed}
use kitaebot.Agent.Repeats.{record_calls}
use kitaebot.Agent.World.{
  Outside, Turn, TurnStats, M, fail, pure, bind, modify, emit, noted, asked, Activity, compaction,
  tool_start, push, ChatAnswer, replied, failed, Round,
}
use kitaebot.Agent.Results.{record_tool_results}
use kitaebot.Agent.Directives.{
  repeat_error, policy_stop_directive, confirm_reply_directive, midpoint_checkpoint_directive,
}
use Policy.{policy_round_limit, strike_rules, blocked_of, rules_of, reasons_of, joined}

abbrev pub repeat_strike_limit : ℕ
repeat_strike_limit = 2

pub data ReplyPolicy : Type 0 where
  accept confirm : ReplyPolicy

-- How an iteration ends: `continue`, or a `return` of the loop.
pub data Step : Type 0 where
  continue : Step
  finish : TurnOutput → Step

module _ (o : Outside) where
  open o use {compact_if_urgent, assemble, observe_request, observe_tokens, json}

  infixl 5 ◌>>=◌ ◌>>◌
  abbrev ◌>>=◌ : {A B : Type 0} → M o A → (A → M o B) → M o B
  m >>= f = bind o m f

  abbrev ◌>>◌ : {B : Type 0} → M o (Unit {0}) → M o B → M o B
  m >> n = bind o m (λ _. n)

  -- The race against the token: it is looked at first.
  unfoldable pub cancellable : {A : Type 0} → Bool → A → M o A
  cancellable true a = do emit o Activity.cancelled; fail o TurnError.cancelled
  cancellable false a = pure o a

  abbrev with_stats : (TurnStats → TurnStats) → M o (Unit {0})
  with_stats f = modify o (λ t. record t { stats = f t.stats })

  unfoldable pub urgent_result : Result Text (Option (ℕ × ℕ)) → M o (Unit {0})
  urgent_result (err e) = fail o (engine_failed e)
  urgent_result (ok none) = pure o tt
  urgent_result (ok (some (before, after))) = emit o (compaction before after)

  unfoldable pub compact_urgent : M o (Unit {0})
  unfolding urgent_result
  compact_urgent t =
      let (engine', r) = compact_if_urgent t.engine in
      urgent_result r (record t { engine = engine' })

  unfoldable pub checkpoint : ℕ → ℕ → M o (Unit {0})
  checkpoint max_iterations iteration =
      if iteration == max_iterations / 2 && ltb 0 iteration
      then with_stats (λ s. record s { checkpointed = true })
        >> push o (system midpoint_checkpoint_directive)
      else pure o tt

  unfoldable pub assembled : M o (List Message)
  assembled t = elim (assemble t.engine) [
    | ok messages ↦ (t, ok messages)
    | err e ↦ (t, err (engine_failed e))
  ]

  unfoldable pub observed_prompt : Option ℕ → Turn o → Turn o
  observed_prompt none t = t
  observed_prompt (some n) t = record t {
    engine = observe_tokens n t.engine;
    stats = record t.stats { prompt_tokens = some n };
  }

  -- The failed draws are billed on either answer, the last one only if it answered.
  unfoldable pub answered : List Message → Bool → ChatAnswer → M o Response
  unfolding observed_prompt
  answered messages offered (failed e draws) t = (
    record t { stats = record t.stats { usage = add_failed t.stats.usage draws } },
    err (provider_failed e),
  )
  answered messages offered (replied response call draws) t =
      let t' =
        observed_prompt call.prompt_tokens
          (record t { engine = observe_request messages offered t.engine }) in
      (
        record t' {
          stats = record t'.stats { usage = add_call (add_failed t'.stats.usage draws) call };
        },
        ok response,
      )

  -- One completion: assemble, ask, bill.
  unfoldable pub complete : Bool → Bool → ChatAnswer → M o Response
  unfolding assembled answered
  complete offered cancelled answer = do
    messages ← assembled
    modify o (noted o (asked messages offered))
    reply ← cancellable cancelled answer
    answered messages offered reply

  -- A text is held once under `confirm`, unless the cap is next.
  unfoldable pub held : ReplyPolicy → Bool → ℕ → ℕ → Bool
  held accept nudged max_iterations iteration = false
  held confirm nudged max_iterations iteration = not nudged && ltb (iteration + 1) max_iterations

  unfoldable pub hold_or_finish : Text → Bool → M o Step
  hold_or_finish content true = do
    with_stats (λ s. record s { nudged = true })
    push o (system confirm_reply_directive)
    pure o continue
  hold_or_finish content false = pure o (finish (TurnOutput.text content))

  unfoldable pub text_reply : ReplyPolicy → ℕ → ℕ → Text → M o Step
  unfolding held hold_or_finish
  text_reply policy max_iterations iteration content = do
    push o (assistant content)
    λ t. hold_or_finish content (held policy t.stats.nudged max_iterations iteration) t

  unfoldable pub push_refusals : List ToolCall → M o (Unit {0})
  push_refusals [] = pure o tt
  push_refusals (c ∷ cs) = do push o (tool c.id repeat_error); push_refusals cs

  unfoldable pub emit_starts : List ToolCall → M o (Unit {0})
  emit_starts [] = pure o tt
  emit_starts (c ∷ cs) = do emit o (tool_start c.function.name); emit_starts cs

  -- A round that repeats the last calls once too often is refused, call by call.
  unfoldable pub refuse : List ToolCall → M o Step
  unfolding push_refusals
  refuse cs = do
    modify o (λ t. record t { repeat_strikes = t.repeat_strikes + 1 })
    push_refusals cs
    λ t.
        if leb repeat_strike_limit t.repeat_strikes then fail o no_progress t else pure o continue t

  unfoldable pub push_hints : List Text → M o (Unit {0})
  push_hints [] = pure o tt
  push_hints (h ∷ hs) = push o (system (joined h hs))

  -- Each rule strikes once a round; too many strikes or blocked rounds halt the turn.
  unfoldable pub struck : List (Text × Text) → M o Step
  struck blocks t =
      let rounds = t.blocked_rounds + 1 in
      let (strikes, over) = strike_rules (rules_of blocks) t.policy_strikes in
      let t' = record t { blocked_rounds = rounds; policy_strikes = strikes } in
      if leb policy_round_limit rounds || over
      then pure o (finish (policy_halt (reasons_of blocks))) t'
      else bind o (push o (system policy_stop_directive)) (λ _. pure o continue) t'

  unfoldable pub policy : List (Text × Text) → M o Step
  unfolding struck
  policy [] = pure o continue
  policy (b ∷ bs) = struck (b ∷ bs)

  unfoldable pub halt_or_policy : Option TurnOutput → List (Text × Text) → M o Step
  halt_or_policy (some halt) blocks = pure o (finish halt)
  halt_or_policy none blocks = policy blocks

  unfoldable pub results_of :
      (ToolCall → Result ToolError Text) → List ToolCall → List (ToolCall × Result ToolError Text)
  results_of execute [] = []
  results_of execute (c ∷ cs) = (c, execute c) ∷ results_of execute cs

  unfoldable pub execute_round : Round → List ToolCall → M o Step
  unfolding emit_starts push_hints halt_or_policy results_of
  execute_round r cs = do
    modify o (λ t. record t { repeat_strikes = 0 })
    with_stats (λ s. record s { tool_calls = s.tool_calls + length cs })
    emit_starts cs
    results ← cancellable r.tools_cancelled (results_of r.execute cs)
    (halt, hints) ← record_tool_results o results none []
    push_hints hints
    halt_or_policy halt (blocked_of results)

  unfoldable pub call_reply : Round → Text → List ToolCall → M o Step
  unfolding refuse
  call_reply r content cs = do
    push o (tool_calls content cs)
    λ t.
        let (repeats', repeated) = record_calls json t.repeats cs in
        let t' = record t { repeats = repeats' } in
        if repeated then refuse cs t' else execute_round r cs t'

  unfoldable pub replied_with : ReplyPolicy → ℕ → ℕ → Round → Response → M o Step
  replied_with reply max_iterations iteration r (Response.text content) =
      text_reply reply max_iterations iteration content
  replied_with reply max_iterations iteration r (calls content cs) = call_reply r content cs

  unfoldable pub iteration_of : ReplyPolicy → ℕ → ℕ → Round → M o Step
  unfolding replied_with
  iteration_of reply max_iterations iteration r = do
    cancellable r.cancelled tt
    with_stats (λ s. record s { iterations = iteration + 1 })
    compact_urgent
    checkpoint max_iterations iteration
    response ← complete true r.chat_cancelled r.chat
    replied_with reply max_iterations iteration r response
