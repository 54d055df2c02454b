-- ===== src/Agent/Turn/Protocol/Branches.antt =====
-- The branches of an iteration: which calls wait when they end.
use kitaebot.Common.{
  ◌≡◌, refl, subst, ap, Bool, true, false, ℕ, List, [], ◌∷◌, Option, none, some, Text, Result, ok,
  err, leb, ltb, inl, inr, ◌+◌, ◌==◌, ◌||◌, ◌&&◌, ◌/◌, Bool-cases,
}
use kitaebot.Types.{system, assistant, tool_calls, ToolCall, Response, calls}
use kitaebot.Agent.Errors.{ToolError, TurnOutput}
use kitaebot.Agent.Repeats.{record_calls}
use kitaebot.Agent.World.{Outside, Activity, push, bind, pure, modify, Round}
use kitaebot.Agent.Results.{record_tool_results}
use kitaebot.Agent.Rounds.{
  policy, struck, refuse, execute_round, call_reply, text_reply, hold_or_finish, held, checkpoint,
  compact_urgent, urgent_result, push_hints, halt_or_policy, results_of, replied_with, iteration_of,
  ReplyPolicy, continue, repeat_strike_limit,
}
use kitaebot.Agent.Rounds.Policy.{blocked_of, rules_of, strike_rules, policy_round_limit, joined}
use kitaebot.Agent.Directives.{
  policy_stop_directive, confirm_reply_directive, midpoint_checkpoint_directive,
}
use kitaebot.Agent.Turn.Triples.{bind_rule}
use kitaebot.Agent.Turn.Protocol.Rules.{
  ids, Owed, Broken, quiet-Broken, push-Owed, emit-Owed, race-Owed,
}
use kitaebot.Agent.Turn.Protocol.Requests.{push_plain, complete-Owed}
use kitaebot.Agent.Turn.Protocol.Steps.{
  Ordered, keeps, Clear, called, record_all-Owed, push_refusals-Owed, emit_starts-Owed,
}

module _ (o : Outside) where
  stop-Owed :
      Ordered o
        (Owed o [])
        (bind o (push o (system policy_stop_directive)) (λ _. pure o continue))
        (Clear o)
  stop-Owed =
      bind_rule o _ (Clear o)
        (push_plain o (Broken o) (quiet-Broken o) (system policy_stop_directive) refl)
        λ _. keeps o λ t h. h

  struck-Owed : (bs : List (Text × Text)) → Ordered o (Owed o []) (struck o bs) (Clear o)
  unfolding struck
  struck-Owed bs = keeps o λ t h.
      elim (Bool-cases (
        leb policy_round_limit (t.blocked_rounds + 1)
        || (strike_rules (rules_of bs) t.policy_strikes).1)) [
          | inl e ↦ rw e h
          | inr e ↦ rw e (stop-Owed.run _ h)
        ]

  policy-Owed : (bs : List (Text × Text)) → Ordered o (Owed o []) (policy o bs) (Clear o)
  unfolding policy
  policy-Owed [] = keeps o λ t h. h
  policy-Owed (b ∷ bs) = struck-Owed (b ∷ bs)

  push_hints-Owed : (hs : List Text) → Ordered o (Owed o []) (push_hints o hs) (Clear o)
  unfolding push_hints
  push_hints-Owed [] = keeps o λ t h. h
  push_hints-Owed (h ∷ hs) = push_plain o (Broken o) (quiet-Broken o) (system (joined h hs)) refl

  halt_or_policy-Owed :
      (halt : Option TurnOutput) (bs : List (Text × Text))
      → Ordered o (Owed o []) (halt_or_policy o halt bs) (Clear o)
  unfolding halt_or_policy
  halt_or_policy-Owed none bs = policy-Owed bs
  halt_or_policy-Owed (some halt) bs = keeps o λ t h. h

  called-results_of :
      (execute : ToolCall → Result ToolError Text) (cs : List ToolCall)
      → called o (results_of o execute cs) ≡ ids cs
  unfolding results_of
  called-results_of execute [] = refl
  called-results_of execute (c ∷ cs) = ap (λ p. c.id ∷ p) (called-results_of execute cs)

  record_round-Owed :
      (execute : ToolCall → Result ToolError Text) (cs : List ToolCall)
      → Ordered o
          (Owed o (ids cs))
          (record_tool_results o (results_of o execute cs) none [])
          (Clear o)
  record_round-Owed execute cs =
      subst
        (λ p.
          Ordered o (Owed o p) (record_tool_results o (results_of o execute cs) none []) (Clear o))
        (called-results_of execute cs) (record_all-Owed o (results_of o execute cs) none [])

  execute_round-Owed :
      (r : Round) (cs : List ToolCall)
      → Ordered o (Owed o (ids cs)) (execute_round o r cs) (Clear o)
  unfolding execute_round
  execute_round-Owed r cs =
      let waiting = Owed o (ids cs) in
      bind_rule o _ (λ _. waiting) (keeps o λ t h. h)
        λ _.
          bind_rule o _ (λ _. waiting) (keeps o λ t h. h)
            λ _.
              bind_rule o _ (λ _. waiting) (emit_starts-Owed o cs (ids cs))
                λ _. race-Owed o r.tools_cancelled (results_of o r.execute cs) (ids cs) _ _ (
                  bind_rule o _ (Clear o) (record_round-Owed r.execute cs) λ recorded.
                    bind_rule o _ (Clear o) (push_hints-Owed recorded.1)
                      λ _. halt_or_policy-Owed recorded.0 (blocked_of (results_of o r.execute cs)))

  refuse-Owed : (cs : List ToolCall) → Ordered o (Owed o (ids cs)) (refuse o cs) (Clear o)
  unfolding refuse
  refuse-Owed cs =
      bind_rule o _ (λ _. Owed o (ids cs)) (keeps o λ t h. h)
        λ _. bind_rule o _ (Clear o) (push_refusals-Owed o cs) λ _. keeps o λ t h.
          elim (Bool-cases (leb repeat_strike_limit t.repeat_strikes)) [
            | inl e ↦ rw e h
            | inr e ↦ rw e h
          ]

  call_reply-Owed :
      (r : Round) (content : Text) (cs : List ToolCall)
      → Ordered o (Owed o []) (call_reply o r content cs) (Clear o)
  unfolding call_reply
  call_reply-Owed r content cs =
      bind_rule o _ (λ _. Owed o (ids cs)) (push-Owed o (tool_calls content cs) [] (ids cs) refl)
        λ _. keeps o λ t h. elim (Bool-cases (record_calls o.json t.repeats cs).1) [
          | inl e ↦ rw e ((refuse-Owed cs).run _ h)
          | inr e ↦ rw e ((execute_round-Owed r cs).run _ h)
        ]

  hold_or_finish-Owed :
      (content : Text) (hold : Bool)
      → Ordered o (Owed o []) (hold_or_finish o content hold) (Clear o)
  unfolding hold_or_finish
  hold_or_finish-Owed content false = keeps o λ t h. h
  hold_or_finish-Owed content true = bind_rule o _ (Clear o) (keeps o λ t h. h) λ _.
      bind_rule o _ (Clear o)
        (push_plain o (Broken o) (quiet-Broken o) (system confirm_reply_directive) refl)
        λ _. keeps o λ t h. h

  text_reply-Owed :
      (reply : ReplyPolicy) (max iteration : ℕ) (content : Text)
      → Ordered o (Owed o []) (text_reply o reply max iteration content) (Clear o)
  unfolding text_reply
  text_reply-Owed reply max iteration content =
      bind_rule o _ (Clear o) (push_plain o (Broken o) (quiet-Broken o) (assistant content) refl)
        λ _.
          keeps o
            λ t h. (hold_or_finish-Owed content (held o reply t.stats.nudged max iteration)).run t h

  replied_with-Owed :
      (reply : ReplyPolicy) (max iteration : ℕ) (r : Round) (response : Response)
      → Ordered o (Owed o []) (replied_with o reply max iteration r response) (Clear o)
  unfolding replied_with
  replied_with-Owed reply max iteration r (Response.text content) =
      text_reply-Owed reply max iteration content
  replied_with-Owed reply max iteration r (calls content cs) = call_reply-Owed r content cs

  urgent-Owed : Ordered o (Owed o []) (compact_urgent o) (Clear o)
  unfolding compact_urgent urgent_result
  urgent-Owed = keeps o λ t h. (result (o.compact_if_urgent t.engine).1).run _ h
    where
      result :
          (r : Result Text (Option (ℕ × ℕ))) → Ordered o (Owed o []) (urgent_result o r) (Clear o)
      result (err e) = keeps o λ t h. ([], h)
      result (ok none) = keeps o λ t h. h
      result (ok (some (before, shrunk))) =
          emit-Owed o (Broken o) (Activity.compaction before shrunk) []

  checkpointed-Owed :
      Ordered o
        (Owed o [])
        (bind o
          (modify o (λ t. record t { stats = record t.stats { checkpointed = true } }))
          (λ _. push o (system midpoint_checkpoint_directive)))
        (Clear o)
  checkpointed-Owed =
      bind_rule o _ (Clear o) (keeps o λ t h. h)
        λ _. push_plain o (Broken o) (quiet-Broken o) (system midpoint_checkpoint_directive) refl

  checkpoint-Owed :
      (max iteration : ℕ) → Ordered o (Owed o []) (checkpoint o max iteration) (Clear o)
  unfolding checkpoint
  checkpoint-Owed max iteration = keeps o λ t h.
      elim (Bool-cases (iteration == max / 2 && ltb 0 iteration)) [
        | inl e ↦ rw e (checkpointed-Owed.run t h)
        | inr e ↦ rw e h
      ]

  pub iteration-Owed :
      (reply : ReplyPolicy) (max iteration : ℕ) (r : Round)
      → Ordered o (Owed o []) (iteration_of o reply max iteration r) (Clear o)
  unfolding iteration_of
  iteration-Owed reply max iteration r = race-Owed o r.cancelled tt [] _ _ (
      bind_rule o _ (Clear o) (keeps o λ t h. h) λ _. bind_rule o _ (Clear o) urgent-Owed λ _.
        bind_rule o _ (Clear o) (checkpoint-Owed max iteration) λ _.
          bind_rule o _ (Clear o)
            (complete-Owed o (Broken o) (quiet-Broken o) true r.chat_cancelled r.chat)
            λ response. replied_with-Owed reply max iteration r response)
