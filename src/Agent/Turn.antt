-- ===== src/Agent/Turn.antt =====
-- agent/mod.rs: `turn_loop` with its squeezes, and `outcome_label`.
pub mod Triples
pub mod Frame
pub mod Kept
pub mod Protocol
pub mod Limits
use kitaebot.Common.{
  ℕ, zero, suc, ◌+◌, ◌≡◌, Bool, true, false, List, [], ◌∷◌, ◌++◌, Option, none, some, Text, codes,
  Result, ok, err,
}
use kitaebot.Types.{Message, system, user, assistant, Response, calls}
use kitaebot.Agent.Errors.{
  TurnError, max_iterations_reached, engine_failed, provider_failed, no_progress, TurnOutput,
  policy_halt, tool_halt,
}
use kitaebot.Agent.World.{
  Outside, Turn, TurnStats, M, fail, pure, bind, modify, emit, Activity, push, ChatAnswer, Round,
  start,
}
use kitaebot.Agent.Rounds.{ReplyPolicy, Step, continue, finish, cancellable, complete, iteration_of}
use kitaebot.Agent.Directives.{final_answer_directive, state_report_directive}

pub data BudgetPolicy : Type 0 where
  fail_turn final_answer : BudgetPolicy

abbrev pub state_report_max : ℕ
state_report_max = 3000

-- The environment of a whole turn: the token at the start, each iteration, and the last request.
pub record Course : Type 0 where
  pub cancelled : Bool
  pub rounds : ℕ → Round
  pub squeeze_cancelled : Bool
  pub squeeze_answer : ChatAnswer

module _ (o : Outside) where
  open o use {Engine, turn_error_text, truncate_output}

  infixl 5 ◌>>=◌ ◌>>◌
  abbrev ◌>>=◌ : {A B : Type 0} → M o A → (A → M o B) → M o B
  m >>= f = bind o m f

  abbrev ◌>>◌ : {B : Type 0} → M o (Unit {0}) → M o B → M o B
  m >> n = bind o m (λ _. n)

  -- Tool calls that come although none were offered give their accompanying text.
  unfoldable pub text_of : Response → Text
  text_of (Response.text content) = content
  text_of (calls content cs) = content

  unfoldable pub squeeze : Text → Course → M o Text
  unfolding text_of
  squeeze directive c = do
    modify o (λ t. record t { stats = record t.stats { squeezed = true } })
    push o (system directive)
    response ← complete o false c.squeeze_cancelled c.squeeze_answer
    push o (assistant (text_of response))
    pure o (text_of response)

  -- The cap is never masked by a squeeze, except by a cancellation.
  unfoldable pub reported : Result TurnError Text → TurnError
  reported (ok report) = max_iterations_reached (truncate_output report state_report_max)
  reported (err TurnError.cancelled) = TurnError.cancelled
  reported (err e) =
      max_iterations_reached (codes "(state report unavailable: " ++ turn_error_text e ++ codes ")")

  unfoldable pub state_report : Course → M o TurnOutput
  unfolding reported
  state_report c t = let (t', r) = squeeze state_report_directive c t in (t', err (reported r))

  unfoldable pub final_answer_of : Course → M o TurnOutput
  final_answer_of c = do
    content ← squeeze final_answer_directive c
    pure o (TurnOutput.text content)

  unfoldable pub exhausted : BudgetPolicy → Course → M o TurnOutput
  exhausted fail_turn c = do emit o Activity.max_iterations; state_report c
  exhausted final_answer c = do emit o Activity.max_iterations; final_answer_of c

  -- What is left of the loop behind an iteration.
  unfoldable pub resume : M o TurnOutput → Step → M o TurnOutput
  resume rest continue = rest
  resume rest (finish output) = pure o output

  -- `left` iterations remain, and the next is number `iteration`.
  unfoldable pub rounds_of : ReplyPolicy → BudgetPolicy → ℕ → Course → ℕ → ℕ → M o TurnOutput
  unfolding resume
  rounds_of reply budget max_iterations c zero iteration = exhausted budget c
  rounds_of reply budget max_iterations c (suc left) iteration = do
    step ← iteration_of o reply max_iterations iteration (c.rounds iteration)
    resume (rounds_of reply budget max_iterations c left (iteration + 1)) step

  unfoldable pub turn_loop : ReplyPolicy → BudgetPolicy → ℕ → Text → Course → M o TurnOutput
  turn_loop reply budget max_iterations user_message c = do
    cancellable o c.cancelled tt
    push o (user user_message)
    rounds_of reply budget max_iterations c max_iterations 0

  unfoldable pub run_turn :
      ReplyPolicy → BudgetPolicy → ℕ → Text → Course → Engine → Turn o × Result TurnError TurnOutput
  run_turn reply budget max_iterations user_message c engine =
      turn_loop reply budget max_iterations user_message c (start o engine)

unfoldable pub outcome_label : Result TurnError TurnOutput → Text
outcome_label (ok (policy_halt reasons)) = codes "policy_halt"
outcome_label (ok (TurnOutput.text t)) = codes "text"
outcome_label (ok (tool_halt tool args class count)) = codes "tool_halt"
outcome_label (err TurnError.cancelled) = codes "cancelled"
outcome_label (err (max_iterations_reached report)) = codes "max_iterations"
outcome_label (err no_progress) = codes "no_progress"
outcome_label (err (engine_failed e)) = codes "error"
outcome_label (err (provider_failed e)) = codes "error"
