-- ===== src/Agent/Usage/Sums.antt =====
-- What `TurnUsage` comes to over several calls and turns.
use kitaebot.Common.{ℕ, ◌+◌, ◌≡◌, refl, ap, List, [], ◌∷◌, Option, none, some, Text, arith, length}
use kitaebot.Agent.Usage.{
  CallUsage, TurnUsage, add_call, add_turn, add_failed, newest, add_reported, add_tokens, both,
  unwrap_or, u32, u64,
}

u32_assoc : (a b c : ℕ) → u32 (u32 (a + b) + c) ≡ u32 (a + u32 (b + c))
u32_assoc a b c = omega arith

u64_assoc : (a b c : ℕ) → u64 (u64 (a + b) + c) ≡ u64 (a + u64 (b + c))
u64_assoc a b c = omega arith

newest_assoc : (a b c : Option Text) → newest (newest a b) c ≡ newest a (newest b c)
unfolding newest
newest_assoc a b none = refl
newest_assoc a b (some c) = refl

tokens_assoc : (a b c : Option ℕ) → add_tokens (both u64 a b) c ≡ both u64 a (add_tokens b c)
unfolding add_tokens both
tokens_assoc a b none = refl
tokens_assoc none none (some c) = ap some (omega arith)
tokens_assoc none (some b) (some c) = ap some (omega arith)
tokens_assoc (some a) none (some c) = ap some (omega arith)
tokens_assoc (some a) (some b) (some c) = ap some (omega arith)

cost_assoc :
    (a b c : Option ℕ) → add_reported (both (λ n. n) a b) c ≡ both (λ n. n) a (add_reported b c)
unfolding add_reported both
cost_assoc a b none = refl
cost_assoc none none (some c) = ap some (omega arith)
cost_assoc none (some b) (some c) = ap some (omega arith)
cost_assoc (some a) none (some c) = ap some (omega arith)
cost_assoc (some a) (some b) (some c) = ap some (omega arith)

-- A call billed to a nested turn, which is then added to its parent, is the call billed to the
-- parent behind the rest of the nested turn.
pub add_turn-add_call :
    (parent nested : TurnUsage) (call : CallUsage)
    → add_turn parent (add_call nested call) ≡ add_call (add_turn parent nested) call
unfolding add_turn add_call
add_turn-add_call u v c = rw (
  u32_assoc u.calls v.calls 1,
  u64_assoc u.prompt_tokens v.prompt_tokens (unwrap_or 0 c.prompt_tokens),
  u64_assoc u.completion_tokens v.completion_tokens c.completion_tokens,
  tokens_assoc u.cached_tokens v.cached_tokens c.cached_tokens,
  cost_assoc u.cost v.cost c.cost,
  newest_assoc u.provider v.provider c.provider,
)

-- Failed draws billed to a nested turn reach its parent as if they had been billed there.
pub add_turn-add_failed :
    (parent nested : TurnUsage) (draws : List CallUsage)
    → add_turn parent (add_failed nested draws) ≡ add_failed (add_turn parent nested) draws
unfolding add_failed
add_turn-add_failed u v [] = refl
add_turn-add_failed u v (c ∷ cs) =
    rw (add_turn-add_failed u (add_call v c) cs, add_turn-add_call u v c)

-- Every failed draw counts as a call, in a 32-bit counter.
calls-add_failed :
    (u : TurnUsage) (draws : List CallUsage)
    → u32 (add_failed u draws).calls ≡ u32 (u.calls + length draws)
unfolding add_failed add_call
calls-add_failed u [] = ap u32 (omega arith)
calls-add_failed u (c ∷ cs) = omega (arith, calls-add_failed (add_call u c) cs)
