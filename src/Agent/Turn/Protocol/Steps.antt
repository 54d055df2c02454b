-- ===== src/Agent/Turn/Protocol/Steps.antt =====
-- The parts of an iteration that push messages: which calls wait behind each.
use kitaebot.Common.{
  ◌≡◌, refl, true, List, [], ◌∷◌, Option, some, Text, ◌=?◌, list_key, nat_key, same_list_iff,
  Result, ok, err,
}
use kitaebot.Types.{tool, ToolCall}
use kitaebot.Agent.Errors.{ToolError, TurnOutput}
use kitaebot.Agent.World.{Outside, Turn, M, pushed, tool_end, tool_start}
use kitaebot.Agent.Results.{hint, judge, record_one, record_tool_results, or_else, with_hint}
use kitaebot.Agent.Rounds.{push_refusals, emit_starts}
use kitaebot.Agent.Directives.{repeat_error}
use kitaebot.Agent.Turn.Triples.{Post, Triple, bind_rule}
use kitaebot.Agent.Turn.Protocol.Rules.{
  ids, after, Owed, Broken, emit-Owed, push-Owed, push_quietly-Owed,
}

module _ (o : Outside) where
  abbrev pub Ordered : {A : Type 0} → (Turn o → Type 0) → M o A → (A → Turn o → Type 0) → Type 0
  Ordered = Triple o (Broken o)

  answer_step :
      (id : Text) (p : List Text) (text : Text)
      → after (some (id ∷ p)) (pushed (tool id text)) ≡ some p
  answer_step id p text = let same : (id =? id) ≡ true = (same_list_iff id id).1 refl in rw same

  pub keeps :
      {A : Type 0} {P : Turn o → Type 0} {m : M o A} {Q : A → Turn o → Type 0}
      → ((t : Turn o) → P t → Post o (Broken o) Q (m t))
      → Ordered P m Q
  keeps run = record { run = run }

  judge-Owed :
      (c : ToolCall) (r : Result ToolError Text) (p : List Text)
      → Ordered (Owed o p) (judge o c r) (λ _. Owed o p)
  unfolding judge
  judge-Owed c (ok output) p = keeps λ t h. h
  judge-Owed c (err e) p = keeps λ t h. h

  record_one-Owed :
      (c : ToolCall) (r : Result ToolError Text) (p : List Text)
      → Ordered (Owed o (c.id ∷ p)) (record_one o (c, r)) (λ _. Owed o p)
  unfolding record_one hint
  record_one-Owed c r p =
      let waiting = Owed o (c.id ∷ p) in
      bind_rule o _ (λ _. waiting) (keeps λ t h. h)
        λ h.
          bind_rule o _ (λ _. waiting) (judge-Owed c r (c.id ∷ p))
            λ j.
              bind_rule o _ (λ _. waiting)
                (emit-Owed o (Broken o) (tool_end c.function.name j.error) (c.id ∷ p))
                λ _.
                  bind_rule o _ (λ _. Owed o p)
                    (push_quietly-Owed o _ _ _ (answer_step c.id p j.content)) λ _. keeps λ t q. q

  abbrev pub called : List (ToolCall × Result ToolError Text) → List Text
  called [] = []
  called ((c, r) ∷ rs) = c.id ∷ called rs

  pub record_all-Owed :
      (rs : List (ToolCall × Result ToolError Text)) (halt : Option TurnOutput) (hints : List Text)
      → Ordered (Owed o (called rs)) (record_tool_results o rs halt hints) (λ _. Owed o [])
  unfolding record_tool_results
  record_all-Owed [] halt hints = keeps λ t h. h
  record_all-Owed ((c, r) ∷ rs) halt hints =
      bind_rule o _ (λ _. Owed o (called rs)) (record_one-Owed c r (called rs))
        λ x. record_all-Owed rs (or_else o halt x.0) (with_hint o hints x.1)

  pub push_refusals-Owed :
      (cs : List ToolCall) → Ordered (Owed o (ids cs)) (push_refusals o cs) (λ _. Owed o [])
  unfolding push_refusals
  push_refusals-Owed [] = keeps λ t h. h
  push_refusals-Owed (c ∷ cs) =
      bind_rule o _ (λ _. Owed o (ids cs))
        (push-Owed o _ _ _ (answer_step c.id (ids cs) repeat_error)) λ _. push_refusals-Owed cs

  pub emit_starts-Owed :
      (cs : List ToolCall) (p : List Text) → Ordered (Owed o p) (emit_starts o cs) (λ _. Owed o p)
  unfolding emit_starts
  emit_starts-Owed [] p = keeps λ t h. h
  emit_starts-Owed (c ∷ cs) p =
      bind_rule o _ (λ _. Owed o p) (emit-Owed o (Broken o) (tool_start c.function.name) p)
        λ _. emit_starts-Owed cs p

  abbrev pub Clear : {A : Type 0} → A → Turn o → Type 0
  Clear _ = Owed o []
