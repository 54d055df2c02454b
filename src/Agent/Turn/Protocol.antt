-- ===== src/Agent/Turn/Protocol.antt =====
-- The order of the conversation that a turn writes: calls, their results, messages and requests.
pub mod Rules
mod Steps
mod Requests
mod Branches
use kitaebot.Common.{
  ℕ, zero, suc, ◌+◌, ◌≡◌, refl, List, [], Option, none, some, Text, false, Bool, Result, ok, err,
}
use kitaebot.Types.{system, user, assistant}
use kitaebot.Agent.Errors.{
  TurnError, max_iterations_reached, engine_failed, provider_failed, no_progress, TurnOutput,
}
use kitaebot.Agent.World.{Outside, Turn, M, Activity, emit, push, pure, start, bind}
use kitaebot.Agent.Rounds.{ReplyPolicy, Step, continue, finish}
use kitaebot.Agent.Turn.{
  BudgetPolicy, fail_turn, final_answer, Course, text_of, squeeze, reported, state_report,
  final_answer_of, exhausted, resume, rounds_of, turn_loop, run_turn,
}
use kitaebot.Agent.Directives.{final_answer_directive, state_report_directive}
use kitaebot.Agent.Turn.Triples.{Post, Triple, bind_rule}
use Rules.{Owed, Broken, pending, emit-Owed, race-Owed, quiet-Broken}
use Requests.{holds, push_plain, complete-Owed}
use Steps.{Ordered, keeps, Clear}
use Branches.{iteration-Owed}

module _ (o : Outside) where
  -- Nothing waits, whatever the error.
  abbrev Quiet : TurnError → Turn o → Type 0
  Quiet e = Owed o []

  squeeze-Owed :
      (directive : Text) (c : Course) → Triple o Quiet (Owed o []) (squeeze o directive c) (Clear o)
  unfolding squeeze
  squeeze-Owed directive c =
      let silent : (e : TurnError) (t : Turn o) → Owed o [] t → Quiet e t = λ e t h. h in
      bind_rule o _ (Clear o) (holds o Quiet silent λ t h. h) λ _.
        bind_rule o _ (Clear o) (push_plain o Quiet silent (system directive) refl) λ _.
          bind_rule o _ (Clear o)
            (complete-Owed o Quiet silent false c.squeeze_cancelled c.squeeze_answer)
            λ response.
              bind_rule o _ (Clear o)
                (push_plain o Quiet silent (assistant (text_of o response)) refl)
                λ _. holds o Quiet silent λ t h. h

  after_squeeze : (r : Turn o × Result TurnError Text) → Post o Quiet (Clear o) r → Owed o [] r.0
  after_squeeze (t, ok a) h = h
  after_squeeze (t, err e) h = h

  state_report-Owed : (c : Course) → Ordered o (Owed o []) (state_report o c) (Clear o)
  unfolding state_report
  state_report-Owed c = record {
    run = λ t h.
        let s = squeeze o state_report_directive c t in
        quiet-Broken o (reported o s.1) s.0
          (after_squeeze s ((squeeze-Owed state_report_directive c).run t h));
  }

  loud :
      (r : Turn o × Result TurnError Text)
      → Post o Quiet (Clear o) r
      → Post o (Broken o) (Clear o) r
  loud (t, ok a) h = h
  loud (t, err e) h = quiet-Broken o e t h

  final_answer-Owed : (c : Course) → Ordered o (Owed o []) (final_answer_of o c) (Clear o)
  unfolding final_answer_of
  final_answer-Owed c =
      let asked : Ordered o (Owed o []) (squeeze o final_answer_directive c) (Clear o) = record {
        run = λ t h.
            loud (squeeze o final_answer_directive c t)
              ((squeeze-Owed final_answer_directive c).run t h);
      } in
      bind_rule o _ (Clear o) asked λ content. keeps o λ t h. h

  exhausted-Owed :
      (budget : BudgetPolicy) (c : Course) → Ordered o (Owed o []) (exhausted o budget c) (Clear o)
  unfolding exhausted
  exhausted-Owed fail_turn c =
      bind_rule o _ (Clear o) (emit-Owed o (Broken o) Activity.max_iterations [])
        λ _. state_report-Owed c
  exhausted-Owed final_answer c =
      bind_rule o _ (Clear o) (emit-Owed o (Broken o) Activity.max_iterations [])
        λ _. final_answer-Owed c

  rounds-Owed :
      (reply : ReplyPolicy) (budget : BudgetPolicy) (max : ℕ) (c : Course) (left iteration : ℕ)
      → Ordered o (Owed o []) (rounds_of o reply budget max c left iteration) (Clear o)
  unfolding rounds_of resume
  rounds-Owed reply budget max c zero iteration = exhausted-Owed budget c
  rounds-Owed reply budget max c (suc left) iteration =
      bind_rule o _ (Clear o) (iteration-Owed o reply max iteration (c.rounds iteration))
        (next (rounds-Owed reply budget max c left (iteration + 1)))
    where
      next :
          {rest : M o TurnOutput}
          → Ordered o (Owed o []) rest (Clear o)
          → (step : Step) → Ordered o (Owed o []) (resume o rest step) (Clear o)
      next rest continue = rest
      next rest (finish output) = keeps o λ t h. h

  -- From an engine, a turn's events are in order, and a call is left without its result only when
  -- the turn is cancelled or the engine fails.
  pub run_turn-Ordered :
      (reply : ReplyPolicy) (budget : BudgetPolicy) (max : ℕ) (message : Text) (c : Course)
      (engine : o.Engine)
      → Post o
          (Broken o)
          (λ output t. pending t.trace ≡ some [])
          (run_turn o reply budget max message c engine)
  unfolding run_turn turn_loop start
  run_turn-Ordered reply budget max message c engine =
      (race-Owed o c.cancelled tt [] _ _ (
          bind_rule o _ (Clear o) (push_plain o (Broken o) (quiet-Broken o) (user message) refl)
            λ _. rounds-Owed reply budget max c max 0)).run
        (start o engine) refl
