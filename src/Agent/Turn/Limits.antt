-- ===== src/Agent/Turn/Limits.antt =====
-- How often a turn asks the provider, with tools offered and without.
use kitaebot.Common.{
  ℕ, zero, suc, ◌+◌, ◌≤◌, ◌≡◌, Bool, true, false, List, [], ◌∷◌, ◌++◌, Text, Result, ok, err,
  if◌then◌else◌, arith,
}
use kitaebot.Types.{Message, user, system, assistant}
use kitaebot.Agent.Errors.{TurnError, TurnOutput}
use kitaebot.Agent.World.{
  Outside, Turn, M, Event, pushed, asked, emitted, Activity, noted, start, ChatAnswer, Round,
}
use kitaebot.Agent.Rounds.{ReplyPolicy, Step, continue, finish, complete, iteration_of}
use kitaebot.Agent.Turn.{
  BudgetPolicy, fail_turn, final_answer, Course, text_of, squeeze, state_report, final_answer_of,
  exhausted, resume, rounds_of, turn_loop, run_turn,
}
use kitaebot.Agent.Directives.{final_answer_directive, state_report_directive}
use kitaebot.Agent.Turn.Triples.{Post, Triple, bind_rule, race_rule}
use kitaebot.Agent.Turn.Frame.{
  Framed, push-Stable, emit-Stable, race-Stable, replied_with-Stable, urgent-Stable,
  checkpoint-Stable, assembled-Stable, answered-Stable,
}

-- The requests with tools offered, or those without.
abbrev pub requests : Bool → List Event → ℕ
requests offered [] = 0
requests offered (pushed m ∷ es) = requests offered es
requests offered (emitted a ∷ es) = requests offered es
requests offered (asked messages b ∷ es) =
    if b
    then (if offered then 1 else 0) + requests offered es
    else (if offered then 0 else 1) + requests offered es

requests-append :
    (offered : Bool) (es fs : List Event)
    → requests offered (es ++ fs) ≡ requests offered es + requests offered fs
requests-append offered [] fs = omega arith
requests-append offered (pushed m ∷ es) fs = requests-append offered es fs
requests-append offered (emitted a ∷ es) fs = requests-append offered es fs
requests-append true (asked messages true ∷ es) fs = omega (arith, requests-append true es fs)
requests-append true (asked messages false ∷ es) fs = omega (arith, requests-append true es fs)
requests-append false (asked messages true ∷ es) fs = omega (arith, requests-append false es fs)
requests-append false (asked messages false ∷ es) fs = omega (arith, requests-append false es fs)

-- At most `n` requests with tools, and at most `k` without.
abbrev pub Within : ℕ → ℕ → List Event → Type 0
Within n k es = (requests true es ≤ n) × (requests false es ≤ k)

module _ (o : Outside) (N K : ℕ) where
  -- The bound on an error.
  abbrev Over : TurnError → Turn o → Type 0
  Over e t = Within N K t.trace

  abbrev At : (n k : ℕ) {A : Type 0} → A → Turn o → Type 0
  At n k a t = Within n k t.trace

  within : (n k : ℕ) → n ≤ N → k ≤ K → Framed o Over (λ e. Within n k)
  within n k hn hk = record {
    pushes = λ m e es h. (
      omega (arith, requests-append true es (pushed m ∷ [])),
      omega (arith, requests-append false es (pushed m ∷ [])),
    );
    emits = λ a e es h. (
      omega (arith, requests-append true es (emitted a ∷ [])),
      omega (arith, requests-append false es (emitted a ∷ [])),
    );
    compacts = λ e es h. h;
    counts = λ n e es h. h;
    sends = λ messages offered e es h. h;
    fails = λ e t h. (omega arith, omega arith);
  }

  offered_request :
      (n k : ℕ) (messages : List Message) (es : List Event)
      → Within n k es
      → Within (n + 1) k (es ++ asked messages true ∷ [])
  offered_request n k messages es h = (
    omega (arith, requests-append true es (asked messages true ∷ [])),
    omega (arith, requests-append false es (asked messages true ∷ [])),
  )

  plain_request :
      (n k : ℕ) (messages : List Message) (es : List Event)
      → Within n k es
      → Within n (k + 1) (es ++ asked messages false ∷ [])
  plain_request n k messages es h = (
    omega (arith, requests-append true es (asked messages false ∷ [])),
    omega (arith, requests-append false es (asked messages false ∷ [])),
  )

  complete-At :
      (offered stop : Bool) (answer : ChatAnswer) (n k n' k' : ℕ)
      → Framed o Over (λ e. Within n k)
      → Framed o Over (λ e. Within n' k')
      → ((messages : List Message) (es : List Event)
          → Within n k es
          → Within n' k' (es ++ asked messages offered ∷ []))
      → Triple o Over (λ t. Within n k t.trace) (complete o offered stop answer) (At n' k')
  unfolding complete
  complete-At offered stop answer n k n' k' f f' request =
      bind_rule o Over (At n k) (assembled-Stable o Over (λ e. Within n k) f) λ messages.
        bind_rule o Over (At n' k') (record { run = λ t h. request messages t.trace h })
          λ _.
            race-Stable o Over (λ e. Within n' k') f' stop answer _
              (answered-Stable o Over (λ e. Within n' k') f' messages offered answer)

  iteration-At :
      (reply : ReplyPolicy) (max iteration : ℕ) (r : Round) (n k : ℕ)
      → n + 1 ≤ N
      → k ≤ K
      → Triple o Over
          (λ t. Within n k t.trace)
          (iteration_of o reply max iteration r)
          (At (n + 1) k)
  unfolding iteration_of
  iteration-At reply max iteration r n k hn hk =
      let f = within n k (omega arith) hk in
      let f' = within (n + 1) k hn hk in
      race_rule o Over r.cancelled tt _ (At (n + 1) k)
        (λ t h.
          f.fails TurnError.cancelled (noted o (emitted Activity.cancelled) t)
            (f.emits Activity.cancelled t.engine t.trace h))
        (bind_rule o Over (At n k) (record { run = λ t h. h })
          λ _. bind_rule o Over (At n k) (urgent-Stable o Over (λ e. Within n k) f) λ _.
            bind_rule o Over (At n k) (checkpoint-Stable o Over (λ e. Within n k) f max iteration)
              λ _.
                bind_rule o Over (At (n + 1) k)
                  (complete-At true r.chat_cancelled r.chat n k (n + 1) k f f'
                    (offered_request n k))
                  λ response.
                    replied_with-Stable o Over (λ e. Within (n + 1) k) f' reply max iteration r
                      response)

  squeeze-At :
      (directive : Text) (c : Course) (n k : ℕ)
      → n ≤ N
      → k + 1 ≤ K
      → Triple o Over (λ t. Within n k t.trace) (squeeze o directive c) (At N K)
  unfolding squeeze
  squeeze-At directive c n k hn hk =
      let f = within n k hn (omega arith) in
      let f' = within n (k + 1) hn hk in
      bind_rule o Over (At n k) (record { run = λ t h. h })
        λ _.
          bind_rule o Over (At n k) (push-Stable o Over (λ e. Within n k) f (system directive)) λ _.
            bind_rule o Over (At n (k + 1))
              (complete-At false c.squeeze_cancelled c.squeeze_answer n k n (k + 1) f f'
                (plain_request n k))
              λ response.
                bind_rule o Over (At n (k + 1))
                  (push-Stable o Over (λ e. Within n (k + 1)) f' (assistant (text_of o response)))
                  λ _. record { run = λ t h. (omega arith, omega arith) }

  exhausted-At :
      (budget : BudgetPolicy) (c : Course) (n k : ℕ)
      → n ≤ N
      → k + 1 ≤ K
      → Triple o Over (λ t. Within n k t.trace) (exhausted o budget c) (At N K)
  unfolding exhausted final_answer_of state_report
  exhausted-At fail_turn c n k hn hk =
      bind_rule o Over (At n k)
        (emit-Stable o Over (λ e. Within n k) (within n k hn (omega arith)) Activity.max_iterations)
        λ _. record {
          run = λ t h.
              any_end (squeeze o state_report_directive c t)
                ((squeeze-At state_report_directive c n k hn hk).run t h);
        }
    where
      any_end : (r : Turn o × Result TurnError Text) → Post o Over (At N K) r → Within N K r.0.trace
      any_end (t, ok a) h = h
      any_end (t, err e) h = h
  exhausted-At final_answer c n k hn hk =
      bind_rule o Over (At n k)
        (emit-Stable o Over (λ e. Within n k) (within n k hn (omega arith)) Activity.max_iterations)
        λ _.
          bind_rule o Over (At N K) (squeeze-At final_answer_directive c n k hn hk)
            λ content. record { run = λ t h. h }

  rounds-At :
      (reply : ReplyPolicy) (budget : BudgetPolicy) (max : ℕ) (c : Course) (left iteration n : ℕ)
      → n + left ≤ N
      → 1 ≤ K
      → Triple o Over
          (λ t. Within n 0 t.trace)
          (rounds_of o reply budget max c left iteration)
          (At N K)
  unfolding rounds_of resume
  rounds-At reply budget max c zero iteration n hn hk =
      exhausted-At budget c n 0 (omega arith) (omega arith)
  rounds-At reply budget max c (suc left) iteration n hn hk =
      bind_rule o Over (At (n + 1) 0)
        (iteration-At reply max iteration (c.rounds iteration) n 0 (omega arith) (omega arith))
        (next (rounds-At reply budget max c left (iteration + 1) (n + 1) (omega arith) hk)
          (omega arith))
    where
      next :
          {rest : M o TurnOutput}
          → Triple o Over (λ t. Within (n + 1) 0 t.trace) rest (At N K)
          → n + 1 ≤ N
          → (step : Step)
          → Triple o Over (λ t. Within (n + 1) 0 t.trace) (resume o rest step) (At N K)
      next rest h continue = rest
      next rest h (finish output) = record { run = λ t h. (omega arith, omega arith) }

-- A turn asks the provider at most `max` times with tools offered and at most once without, however
-- it ends.
pub run_turn-requests :
    (o : Outside) (reply : ReplyPolicy) (budget : BudgetPolicy) (max : ℕ) (message : Text)
    (c : Course) (engine : o.Engine)
    → Within max 1 (run_turn o reply budget max message c engine).0.trace
unfolding run_turn turn_loop start
run_turn-requests o reply budget max message c engine =
    let f = within o max 1 0 0 (omega arith) (omega arith) in
    any_end (turn_loop o reply budget max message c (start o engine)) (
      (race_rule o (Over o max 1) c.cancelled tt _ (At o max 1 max 1)
          (λ t h.
            f.fails TurnError.cancelled (noted o (emitted Activity.cancelled) t)
              (f.emits Activity.cancelled t.engine t.trace h))
          (bind_rule o (Over o max 1) (At o max 1 0 0)
            (push-Stable o (Over o max 1) (λ e. Within 0 0) f (user message))
            λ _. rounds-At o max 1 reply budget max c max 0 0 (omega arith) (omega arith))).run
        (start o engine) (omega arith, omega arith))
  where
    any_end :
        (r : Turn o × Result TurnError TurnOutput)
        → Post o (Over o max 1) (At o max 1 max 1) r
        → Within max 1 r.0.trace
    any_end (t, ok a) h = h
    any_end (t, err e) h = h
