-- ===== src/Agent/Turn/Frame.antt =====
-- What every part of an iteration but the request keeps: a property of the trace that messages
-- and activity leave alone.
use kitaebot.Common.{
  Bool, true, false, ℕ, List, [], ◌∷◌, ◌++◌, Option, none, some, Text, Result, ok, err, leb, ltb,
  inl, inr, ◌+◌, ◌==◌, ◌||◌, ◌&&◌, ◌/◌, Result-cases, Bool-cases,
}
use kitaebot.Types.{Message, system, assistant, tool, tool_calls, ToolCall, Response, calls}
use kitaebot.Agent.Errors.{ToolError, TurnError, TurnOutput}
use kitaebot.Agent.Repeats.{record_calls}
use kitaebot.Agent.World.{
  Outside, Turn, M, Event, pushed, emitted, Activity, tool_start, tool_end, noted, push,
  push_quietly, emit, bind, pure, modify, Round, ChatAnswer, replied, failed,
}
use kitaebot.Agent.Results.{hint, judge, record_one, record_tool_results, or_else, with_hint}
use kitaebot.Agent.Rounds.{
  policy, struck, refuse, execute_round, call_reply, text_reply, hold_or_finish, held, assembled,
  cancellable, answered, observed_prompt, checkpoint, compact_urgent, urgent_result, push_hints,
  halt_or_policy, results_of, replied_with, ReplyPolicy, continue, repeat_strike_limit,
  push_refusals, emit_starts,
}
use kitaebot.Agent.Rounds.Policy.{blocked_of, rules_of, strike_rules, policy_round_limit, joined}
use kitaebot.Agent.Directives.{
  repeat_error, policy_stop_directive, confirm_reply_directive, midpoint_checkpoint_directive,
}
use kitaebot.Agent.Turn.Triples.{Post, Triple, bind_rule, race_rule, push_rule}

pub record Framed (o : Outside) (E : TurnError → Turn o → Type 0)
    (I : o.Engine → List Event → Type 0) : Type 0 where
  pub pushes :
      (m : Message) (e : o.Engine) (es : List Event)
      → I e es
      → I (o.push_message m e).0 (es ++ pushed m ∷ [])
  pub emits : (a : Activity) (e : o.Engine) (es : List Event) → I e es → I e (es ++ emitted a ∷ [])
  pub compacts : (e : o.Engine) (es : List Event) → I e es → I (o.compact_if_urgent e).0 es
  pub counts : (n : ℕ) (e : o.Engine) (es : List Event) → I e es → I (o.observe_tokens n e) es
  pub sends :
      (messages : List Message) (offered : Bool) (e : o.Engine) (es : List Event)
      → I e es
      → I (o.observe_request messages offered e) es
  pub fails : (e : TurnError) (t : Turn o) → I t.engine t.trace → E e t

module _ (o : Outside) (E : TurnError → Turn o → Type 0) (I : o.Engine → List Event → Type 0)
    (f : Framed o E I) where
  abbrev pub Inv : Turn o → Type 0
  Inv t = I t.engine t.trace

  -- The action keeps it, on its result and on its error.
  abbrev pub Stable : {A : Type 0} → M o A → Type 0
  Stable m = Triple o E Inv m (λ _. Inv)

  pub keeps :
      {A : Type 0} {m : M o A} → ((t : Turn o) → Inv t → Post o E (λ _. Inv) (m t)) → Stable m
  keeps run = record { run = run }

  pub before :
      {A B : Type 0} {m : M o A} {g : A → M o B}
      → Stable m
      → ((a : A) → Stable (g a))
      → Stable (bind o m g)
  before hm hg = bind_rule o E (λ _. Inv) hm hg

  pub push-Stable : (m : Message) → Stable (push o m)
  push-Stable m =
      push_rule o E m Inv Inv (λ t h. f.pushes m t.engine t.trace h) (λ e t h. f.fails _ t h)

  pub emit-Stable : (a : Activity) → Stable (emit o a)
  emit-Stable a = keeps λ t h. f.emits a t.engine t.trace h

  pub race-Stable :
      {A B : Type 0} (stop : Bool) (a : A) (g : A → M o B)
      → Stable (g a)
      → Stable (bind o (cancellable o stop a) g)
  race-Stable stop a g h =
      race_rule o E stop a g (λ _. Inv)
        (λ t i.
          f.fails _ (noted o (emitted Activity.cancelled) t)
            (f.emits Activity.cancelled t.engine t.trace i))
        h

  push_quietly-Stable : (m : Message) → Stable (push_quietly o m)
  unfolding push_quietly
  push_quietly-Stable m = keeps λ t h. f.pushes m t.engine t.trace h

  judge-Stable : (c : ToolCall) (r : Result ToolError Text) → Stable (judge o c r)
  unfolding judge
  judge-Stable c (ok output) = keeps λ t h. h
  judge-Stable c (err e) = keeps λ t h. h

  record_one-Stable : (c : ToolCall) (r : Result ToolError Text) → Stable (record_one o (c, r))
  unfolding record_one hint
  record_one-Stable c r = before (keeps λ t h. h) λ h. before (judge-Stable c r) λ j.
      before (emit-Stable (tool_end c.function.name j.error))
        λ _. before (push_quietly-Stable (tool c.id j.content)) λ _. keeps λ t q. q

  record_all-Stable :
      (rs : List (ToolCall × Result ToolError Text)) (halt : Option TurnOutput) (hints : List Text)
      → Stable (record_tool_results o rs halt hints)
  unfolding record_tool_results
  record_all-Stable [] halt hints = keeps λ t h. h
  record_all-Stable ((c, r) ∷ rs) halt hints =
      before (record_one-Stable c r)
        λ x. record_all-Stable rs (or_else o halt x.0) (with_hint o hints x.1)

  push_refusals-Stable : (cs : List ToolCall) → Stable (push_refusals o cs)
  unfolding push_refusals
  push_refusals-Stable [] = keeps λ t h. h
  push_refusals-Stable (c ∷ cs) =
      before (push-Stable (tool c.id repeat_error)) λ _. push_refusals-Stable cs

  emit_starts-Stable : (cs : List ToolCall) → Stable (emit_starts o cs)
  unfolding emit_starts
  emit_starts-Stable [] = keeps λ t h. h
  emit_starts-Stable (c ∷ cs) =
      before (emit-Stable (tool_start c.function.name)) λ _. emit_starts-Stable cs

  struck-Stable : (bs : List (Text × Text)) → Stable (struck o bs)
  unfolding struck
  struck-Stable bs = keeps λ t h.
      elim (Bool-cases (
        leb policy_round_limit (t.blocked_rounds + 1)
        || (strike_rules (rules_of bs) t.policy_strikes).1)) [
          | inl e ↦ rw e h
          | inr e ↦ rw e (stop.run _ h)
        ]
    where
      stop : Stable (bind o (push o (system policy_stop_directive)) (λ _. pure o continue))
      stop = before (push-Stable (system policy_stop_directive)) λ _. keeps λ t h. h

  push_hints-Stable : (hs : List Text) → Stable (push_hints o hs)
  unfolding push_hints
  push_hints-Stable [] = keeps λ t h. h
  push_hints-Stable (h ∷ hs) = push-Stable (system (joined h hs))

  halt_or_policy-Stable :
      (halt : Option TurnOutput) (bs : List (Text × Text)) → Stable (halt_or_policy o halt bs)
  unfolding halt_or_policy policy
  halt_or_policy-Stable none [] = keeps λ t h. h
  halt_or_policy-Stable none (b ∷ bs) = struck-Stable (b ∷ bs)
  halt_or_policy-Stable (some halt) bs = keeps λ t h. h

  execute_round-Stable : (r : Round) (cs : List ToolCall) → Stable (execute_round o r cs)
  unfolding execute_round
  execute_round-Stable r cs =
      let results = results_of o r.execute cs in
      before (keeps λ t h. h) λ _. before (keeps λ t h. h) λ _. before (emit_starts-Stable cs) λ _.
        race-Stable r.tools_cancelled results _ (
          before (record_all-Stable results none []) λ recorded.
            before (push_hints-Stable recorded.1)
              λ _. halt_or_policy-Stable recorded.0 (blocked_of results))

  refuse-Stable : (cs : List ToolCall) → Stable (refuse o cs)
  unfolding refuse
  refuse-Stable cs = before (keeps λ t h. h) λ _. before (push_refusals-Stable cs) λ _. keeps λ t h.
      elim (Bool-cases (leb repeat_strike_limit t.repeat_strikes)) [
        | inl e ↦ rw e (f.fails _ t h)
        | inr e ↦ rw e h
      ]

  call_reply-Stable :
      (r : Round) (content : Text) (cs : List ToolCall) → Stable (call_reply o r content cs)
  unfolding call_reply
  call_reply-Stable r content cs = before (push-Stable (tool_calls content cs)) λ _. keeps λ t h.
      elim (Bool-cases (record_calls o.json t.repeats cs).1) [
        | inl e ↦ rw e ((refuse-Stable cs).run _ h)
        | inr e ↦ rw e ((execute_round-Stable r cs).run _ h)
      ]

  hold_or_finish-Stable : (content : Text) (hold : Bool) → Stable (hold_or_finish o content hold)
  unfolding hold_or_finish
  hold_or_finish-Stable content false = keeps λ t h. h
  hold_or_finish-Stable content true =
      before (keeps λ t h. h)
        λ _. before (push-Stable (system confirm_reply_directive)) λ _. keeps λ t h. h

  pub replied_with-Stable :
      (reply : ReplyPolicy) (max iteration : ℕ) (r : Round) (response : Response)
      → Stable (replied_with o reply max iteration r response)
  unfolding replied_with text_reply
  replied_with-Stable reply max iteration r (Response.text content) =
      before (push-Stable (assistant content)) λ _.
        keeps
          λ t h. (hold_or_finish-Stable content (held o reply t.stats.nudged max iteration)).run t h
  replied_with-Stable reply max iteration r (calls content cs) = call_reply-Stable r content cs

  pub urgent-Stable : Stable (compact_urgent o)
  unfolding compact_urgent urgent_result
  urgent-Stable =
      keeps λ t h. (result (o.compact_if_urgent t.engine).1).run _ (f.compacts t.engine t.trace h)
    where
      result : (r : Result Text (Option (ℕ × ℕ))) → Stable (urgent_result o r)
      result (err e) = keeps λ t h. f.fails _ t h
      result (ok none) = keeps λ t h. h
      result (ok (some (old, new))) = emit-Stable (Activity.compaction old new)

  pub checkpoint-Stable : (max iteration : ℕ) → Stable (checkpoint o max iteration)
  unfolding checkpoint
  checkpoint-Stable max iteration = keeps λ t h.
      elim (Bool-cases (iteration == max / 2 && ltb 0 iteration)) [
        | inl e ↦ rw e (marked.run t h)
        | inr e ↦ rw e h
      ]
    where
      marked : Stable (
          bind o
            (modify o (λ t. record t { stats = record t.stats { checkpointed = true } }))
            (λ _. push o (system midpoint_checkpoint_directive)))
      marked = before (keeps λ t h. h) λ _. push-Stable (system midpoint_checkpoint_directive)

  pub assembled-Stable : Stable (assembled o)
  unfolding assembled
  assembled-Stable = keeps λ t h. elim (Result-cases (o.assemble t.engine)) [
    | inl (messages, e) ↦ rw (e, assembled) h
    | inr (reason, e) ↦ rw (e, assembled) (f.fails _ t h)
  ]

  pub answered-Stable :
      (messages : List Message) (offered : Bool) (answer : ChatAnswer)
      → Stable (answered o messages offered answer)
  unfolding answered observed_prompt
  answered-Stable messages offered (failed e draws) = keeps λ t h. f.fails _ _ h
  answered-Stable messages offered (replied response call draws) =
      keeps λ t h. prompt call.prompt_tokens _ (f.sends messages offered t.engine t.trace h)
    where
      prompt : (n : Option ℕ) (t : Turn o) → Inv t → Inv (observed_prompt o n t)
      prompt none t h = h
      prompt (some n) t h = f.counts n t.engine t.trace h
