-- ===== src/Agent/Turn/Protocol/Rules.antt =====
-- The order of a conversation as an automaton over the events, and its rules for the pushes.
use kitaebot.Common.{
  ◌≡◌, refl, ◌∙◌, ap, List, [], ◌∷◌, ◌++◌, Option, none, some, Text, ◌=?◌, list_key, nat_key,
  if◌then◌else◌, Bool,
}
use kitaebot.Types.{Message, system, user, assistant, tool, tool_calls, ToolCall}
use kitaebot.Agent.Errors.{
  TurnError, max_iterations_reached, engine_failed, provider_failed, no_progress,
}
use kitaebot.Agent.World.{
  Outside, Turn, M, Event, pushed, asked, emitted, Activity, noted, push, push_quietly, emit, bind,
}
use kitaebot.Agent.Rounds.{cancellable}
use kitaebot.Agent.Turn.Triples.{Triple, race_rule, push_rule}

abbrev pub ids : List ToolCall → List Text
ids [] = []
ids (c ∷ cs) = c.id ∷ ids cs

-- The calls that still wait for a result, after one more event; `none` when the event is out of
-- order: a message or a request while calls wait, or a result for another call.
abbrev pub after : Option (List Text) → Event → Option (List Text)
after none e = none
after (some p) (emitted a) = some p
after (some []) (asked messages offered) = some []
after (some (x ∷ p)) (asked messages offered) = none
after (some []) (pushed (tool id text)) = none
after (some (x ∷ p)) (pushed (tool id text)) = if x =? id then some p else none
after (some []) (pushed (tool_calls text cs)) = some (ids cs)
after (some (x ∷ p)) (pushed (tool_calls text cs)) = none
after (some []) (pushed (system text)) = some []
after (some (x ∷ p)) (pushed (system text)) = none
after (some []) (pushed (user text)) = some []
after (some (x ∷ p)) (pushed (user text)) = none
after (some []) (pushed (assistant text)) = some []
after (some (x ∷ p)) (pushed (assistant text)) = none

abbrev pub after_all : Option (List Text) → List Event → Option (List Text)
after_all p [] = p
after_all p (e ∷ es) = after_all (after p e) es

abbrev pub pending : List Event → Option (List Text)
pending = after_all (some [])

after_all-snoc :
    (p : Option (List Text)) (es : List Event) (e : Event)
    → after_all p (es ++ e ∷ []) ≡ after (after_all p es) e
after_all-snoc p [] e = refl
after_all-snoc p (x ∷ es) e = after_all-snoc (after p x) es e

module _ (o : Outside) where
  -- The trace is in order, and these calls wait.
  abbrev pub Owed : List Text → Turn o → Type 0
  Owed p t = pending t.trace ≡ some p

  -- A cancellation or a failure of the engine can leave calls unanswered; no other end does.
  abbrev pub Broken : TurnError → Turn o → Type 0
  Broken TurnError.cancelled t = (p : List Text) × Owed p t
  Broken (engine_failed e) t = (p : List Text) × Owed p t
  Broken (provider_failed e) t = Owed [] t
  Broken no_progress t = Owed [] t
  Broken (max_iterations_reached report) t = Owed [] t

  pub noted-Owed :
      (e : Event) (p q : List Text) (t : Turn o)
      → after (some p) e ≡ some q
      → Owed p t
      → Owed q (noted o e t)
  noted-Owed e p q t step h = after_all-snoc (some []) t.trace e ∙ ap (λ x. after x e) h ∙ step

  pub push-Owed :
      (m : Message) (p q : List Text)
      → after (some p) (pushed m) ≡ some q
      → Triple o Broken (Owed p) (push o m) (λ _. Owed q)
  push-Owed m p q step =
      push_rule o Broken m (Owed p) (Owed q)
        (λ t h.
          noted-Owed (pushed m) p q (record t { engine = (o.push_message m t.engine).0 }) step h)
        (λ e t h. (q, h))

  pub emit-Owed :
      (E : TurnError → Turn o → Type 0) (a : Activity) (p : List Text)
      → Triple o E (Owed p) (emit o a) (λ _. Owed p)
  emit-Owed E a p = record { run = λ t h. noted-Owed (emitted a) p p t refl h }

  pub push_quietly-Owed :
      (m : Message) (p q : List Text)
      → after (some p) (pushed m) ≡ some q
      → Triple o Broken (Owed p) (push_quietly o m) (λ _. Owed q)
  unfolding push_quietly
  push_quietly-Owed m p q step = record { run = λ t h. noted-Owed (pushed m) p q t step h }

  pub race-Owed :
      {A B : Type 0} (stop : Bool) (a : A) (p : List Text) (f : A → M o B) (R : B → Turn o → Type 0)
      → Triple o Broken (Owed p) (f a) R
      → Triple o Broken (Owed p) (bind o (cancellable o stop a) f) R
  race-Owed stop a p f R h =
      race_rule o Broken stop a f R
        (λ t owed. (p, noted-Owed (emitted Activity.cancelled) p p t refl owed)) h

  pub quiet-Broken : (e : TurnError) (t : Turn o) → Owed [] t → Broken e t
  quiet-Broken TurnError.cancelled t h = ([], h)
  quiet-Broken (engine_failed e) t h = ([], h)
  quiet-Broken (provider_failed e) t h = h
  quiet-Broken no_progress t h = h
  quiet-Broken (max_iterations_reached report) t h = h
