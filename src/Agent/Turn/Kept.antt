-- ===== src/Agent/Turn/Kept.antt =====
-- agent/mod.rs: what every part of a turn keeps of the engine and the trace, a whole turn keeps.
use kitaebot.Common.{
  ℕ, zero, suc, ◌+◌, ◌≡◌, Bool, true, false, List, [], ◌∷◌, ◌++◌, Text, Result, ok, err,
  Result-cases, inl, inr,
}
use kitaebot.Types.{Message, user, system, assistant}
use kitaebot.Agent.Errors.{TurnError, TurnOutput}
use kitaebot.Agent.World.{Outside, Turn, M, Event, asked, Activity, start, ChatAnswer, Round}
use kitaebot.Agent.Rounds.{ReplyPolicy, Step, continue, finish, complete, iteration_of, assembled}
use kitaebot.Agent.Turn.{
  BudgetPolicy, fail_turn, final_answer, Course, text_of, squeeze, state_report, final_answer_of,
  exhausted, resume, rounds_of, turn_loop, run_turn,
}
use kitaebot.Agent.Directives.{final_answer_directive, state_report_directive}
use kitaebot.Agent.Turn.Triples.{Post, Triple, bind_rule}
use kitaebot.Agent.Turn.Frame.{
  Framed, Stable, keeps, before, push-Stable, emit-Stable, race-Stable, replied_with-Stable,
  urgent-Stable, checkpoint-Stable, answered-Stable,
}

module _ (o : Outside) (I : o.Engine → List Event → Type 0) where
  -- An error keeps it too.
  abbrev pub Failed : TurnError → Turn o → Type 0
  Failed e t = I t.engine t.trace

  -- A request is made of what the engine assembles.
  abbrev pub Asks : Type 0
  Asks =
      (messages : List Message) (offered : Bool) (e : o.Engine) (es : List Event)
      → o.assemble e ≡ ok messages
      → I e es
      → I e (es ++ asked messages offered ∷ [])

  module _ (f : Framed o Failed I) (asks : Asks) where
    assembled_rule :
        Triple o Failed
          (λ t. I t.engine t.trace)
          (assembled o)
          (λ messages t. (o.assemble t.engine ≡ ok messages) × I t.engine t.trace)
    unfolding assembled
    assembled_rule = record {
      run = λ t h. elim (Result-cases (o.assemble t.engine)) [
        | inl (messages, e) ↦ rw (e, assembled) (e, h)
        | inr (reason, e) ↦ rw (e, assembled) h
      ];
    }

    complete-Kept :
        (offered stop : Bool) (answer : ChatAnswer)
        → Stable o Failed I f (complete o offered stop answer)
    unfolding complete
    complete-Kept offered stop answer =
        bind_rule o Failed (λ messages t. (o.assemble t.engine ≡ ok messages) × I t.engine t.trace)
          assembled_rule
          λ messages.
            bind_rule o Failed (λ _ t. I t.engine t.trace)
              (record { run = λ t h. asks messages offered t.engine t.trace h.0 h.1 })
              λ _.
                race-Stable o Failed I f stop answer _
                  (answered-Stable o Failed I f messages offered answer)

    iteration-Kept :
        (reply : ReplyPolicy) (max iteration : ℕ) (r : Round)
        → Stable o Failed I f (iteration_of o reply max iteration r)
    unfolding iteration_of
    iteration-Kept reply max iteration r = race-Stable o Failed I f r.cancelled tt _ (
        before o Failed I f (keeps o Failed I f λ t h. h) λ _.
          before o Failed I f (urgent-Stable o Failed I f) λ _.
            before o Failed I f (checkpoint-Stable o Failed I f max iteration) λ _.
              before o Failed I f (complete-Kept true r.chat_cancelled r.chat)
                λ response. replied_with-Stable o Failed I f reply max iteration r response)

    squeeze-Kept : (directive : Text) (c : Course) → Stable o Failed I f (squeeze o directive c)
    unfolding squeeze
    squeeze-Kept directive c = before o Failed I f (keeps o Failed I f λ t h. h) λ _.
        before o Failed I f (push-Stable o Failed I f (system directive)) λ _.
          before o Failed I f (complete-Kept false c.squeeze_cancelled c.squeeze_answer) λ response.
            before o Failed I f (push-Stable o Failed I f (assistant (text_of o response)))
              λ _. keeps o Failed I f λ t h. h

    any_end :
        {A : Type 0} (r : Turn o × Result TurnError A)
        → Post o Failed (λ _ t. I t.engine t.trace) r
        → I r.0.engine r.0.trace
    any_end (t, ok a) h = h
    any_end (t, err e) h = h

    exhausted-Kept :
        (budget : BudgetPolicy) (c : Course) → Stable o Failed I f (exhausted o budget c)
    unfolding exhausted final_answer_of state_report
    exhausted-Kept fail_turn c =
        before o Failed I f (emit-Stable o Failed I f Activity.max_iterations) λ _.
          keeps o Failed I f λ t h.
            any_end (squeeze o state_report_directive c t)
              ((squeeze-Kept state_report_directive c).run t h)
    exhausted-Kept final_answer c =
        before o Failed I f (emit-Stable o Failed I f Activity.max_iterations) λ _.
          before o Failed I f (squeeze-Kept final_answer_directive c)
            λ content. keeps o Failed I f λ t h. h

    rounds-Kept :
        (reply : ReplyPolicy) (budget : BudgetPolicy) (max : ℕ) (c : Course) (left iteration : ℕ)
        → Stable o Failed I f (rounds_of o reply budget max c left iteration)
    unfolding rounds_of resume
    rounds-Kept reply budget max c zero iteration = exhausted-Kept budget c
    rounds-Kept reply budget max c (suc left) iteration =
        before o Failed I f (iteration-Kept reply max iteration (c.rounds iteration))
          (next (rounds-Kept reply budget max c left (iteration + 1)))
      where
        next :
            {rest : M o TurnOutput}
            → Stable o Failed I f rest
            → (step : Step) → Stable o Failed I f (resume o rest step)
        next h continue = h
        next h (finish output) = keeps o Failed I f λ t i. i

    -- What pushes, activity, compactions, observations and requests keep holds behind a turn,
    -- however it ends.
    pub run_turn-Kept :
        (reply : ReplyPolicy) (budget : BudgetPolicy) (max : ℕ) (message : Text) (c : Course)
        (engine : o.Engine)
        → I engine []
        → I
            (run_turn o reply budget max message c engine).0.engine
            (run_turn o reply budget max message c engine).0.trace
    unfolding run_turn turn_loop start
    run_turn-Kept reply budget max message c engine h =
        any_end (turn_loop o reply budget max message c (start o engine)) (
          (race-Stable o Failed I f c.cancelled tt _ (
              before o Failed I f (push-Stable o Failed I f (user message))
                λ _. rounds-Kept reply budget max c max 0)).run
            (start o engine) h)
