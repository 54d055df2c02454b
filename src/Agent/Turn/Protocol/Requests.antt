-- ===== src/Agent/Turn/Protocol/Requests.antt =====
-- The parts of a turn that run while no call waits, for any account of the errors that needs no
-- more than that.
use kitaebot.Common.{◌≡◌, refl, ℕ, Bool, List, [], Option, none, some, Result-cases, inl, inr}
use kitaebot.Types.{Message}
use kitaebot.Agent.Errors.{TurnError}
use kitaebot.Agent.World.{
  Outside, Turn, M, pushed, asked, emitted, Activity, push, ChatAnswer, replied, failed,
}
use kitaebot.Agent.Rounds.{complete, assembled, answered, observed_prompt}
use kitaebot.Agent.Turn.Triples.{Post, Triple, bind_rule, race_rule, push_rule}
use kitaebot.Agent.Turn.Protocol.Rules.{after, Owed, noted-Owed}

module _ (o : Outside) (E : TurnError → Turn o → Type 0)
    (silent : (e : TurnError) (t : Turn o) → Owed o [] t → E e t) where
  pub holds :
      {A : Type 0} {P : Turn o → Type 0} {m : M o A} {Q : A → Turn o → Type 0}
      → ((t : Turn o) → P t → Post o E Q (m t))
      → Triple o E P m Q
  holds run = record { run = run }

  pub push_plain :
      (m : Message)
      → after (some []) (pushed m) ≡ some []
      → Triple o E (Owed o []) (push o m) (λ _. Owed o [])
  push_plain m step =
      push_rule o E m (Owed o []) (Owed o [])
        (λ t h.
          noted-Owed o (pushed m) [] [] (record t { engine = (o.push_message m t.engine).0 }) step
            h)
        (λ e t h. silent _ t h)

  assembled-Owed : Triple o E (Owed o []) (assembled o) (λ _. Owed o [])
  unfolding assembled
  assembled-Owed = holds λ t h. elim (Result-cases (o.assemble t.engine)) [
    | inl (messages, e) ↦ rw (e, assembled) h
    | inr (f, e) ↦ rw (e, assembled) (silent _ _ h)
  ]

  answered-Owed :
      (messages : List Message) (offered : Bool) (answer : ChatAnswer)
      → Triple o E (Owed o []) (answered o messages offered answer) (λ _. Owed o [])
  unfolding answered observed_prompt
  answered-Owed messages offered (failed e draws) = holds λ t h. silent _ _ h
  answered-Owed messages offered (replied response call draws) =
      holds λ t h. prompt call.prompt_tokens _ h
    where
      prompt : (n : Option ℕ) (t : Turn o) → Owed o [] t → Owed o [] (observed_prompt o n t)
      prompt none t h = h
      prompt (some n) t h = h

  pub complete-Owed :
      (offered stop : Bool) (answer : ChatAnswer)
      → Triple o E (Owed o []) (complete o offered stop answer) (λ _. Owed o [])
  unfolding complete
  complete-Owed offered stop answer =
      bind_rule o E (λ _. Owed o []) assembled-Owed
        λ messages.
          bind_rule o E (λ _. Owed o [])
            (holds λ t h. noted-Owed o (asked messages offered) [] [] t refl h)
            λ _.
              race_rule o E stop answer _ _
                (λ t h. silent _ _ (noted-Owed o (emitted Activity.cancelled) [] [] t refl h))
                (answered-Owed messages offered answer)
