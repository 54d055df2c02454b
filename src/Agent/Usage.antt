-- ===== src/Agent/Usage.antt =====
-- agent/mod.rs: `TurnUsage`, the billed usage of a turn. A cost is counted in a fixed unit, so
-- its sums are exact; the rounding of f64 is not modelled.
pub mod Sums
use kitaebot.Common.{
  ℕ, ◌+◌, ◌%◌, ◌^◌, ◌≡◌, refl, ◌<◌, List, [], ◌∷◌, ◌++◌, Option, none, some, arith, Text, length,
  sum_of,
}

pub record CallUsage : Type 0 where
  pub prompt_tokens : Option ℕ
  pub cached_tokens : Option ℕ
  pub provider : Option Text
  pub completion_tokens : ℕ
  pub cost : Option ℕ

pub record TurnUsage : Type 0 where
  pub calls : ℕ
  pub prompt_tokens : ℕ
  pub cached_tokens : Option ℕ
  pub completion_tokens : ℕ
  pub cost : Option ℕ
  pub provider : Option Text

abbrev pub no_usage : TurnUsage
no_usage = record {
  calls = 0;
  prompt_tokens = 0;
  cached_tokens = none;
  completion_tokens = 0;
  cost = none;
  provider = none;
}

abbrev pub unwrap_or : ℕ → Option ℕ → ℕ
unwrap_or d none = d
unwrap_or d (some n) = n

abbrev pub u32 : ℕ → ℕ
u32 n = n % 2 ^ 32

abbrev pub u64 : ℕ → ℕ
u64 n = n % 2 ^ 64

-- The newest reported endpoint wins.
unfoldable pub newest : Option Text → Option Text → Option Text
newest old none = old
newest old (some p) = some p

-- `None` until a first report, then the running sum.
unfoldable pub add_reported : Option ℕ → Option ℕ → Option ℕ
add_reported old none = old
add_reported old (some n) = some (unwrap_or 0 old + n)

unfoldable pub add_tokens : Option ℕ → Option ℕ → Option ℕ
add_tokens old none = old
add_tokens old (some n) = some (u64 (unwrap_or 0 old + n))

unfoldable pub add_call : TurnUsage → CallUsage → TurnUsage
unfolding newest add_reported add_tokens
add_call u call = record {
  calls = u32 (u.calls + 1);
  prompt_tokens = u64 (u.prompt_tokens + unwrap_or 0 call.prompt_tokens);
  cached_tokens = add_tokens u.cached_tokens call.cached_tokens;
  completion_tokens = u64 (u.completion_tokens + call.completion_tokens);
  cost = add_reported u.cost call.cost;
  provider = newest u.provider call.provider;
}

unfoldable pub both : (ℕ → ℕ) → Option ℕ → Option ℕ → Option ℕ
both wrap none none = none
both wrap (some a) b = some (wrap (a + unwrap_or 0 b))
both wrap none (some b) = some (wrap b)

unfoldable pub add_turn : TurnUsage → TurnUsage → TurnUsage
unfolding newest both
add_turn u other = record {
  calls = u32 (u.calls + other.calls);
  prompt_tokens = u64 (u.prompt_tokens + other.prompt_tokens);
  cached_tokens = both u64 u.cached_tokens other.cached_tokens;
  completion_tokens = u64 (u.completion_tokens + other.completion_tokens);
  cost = both (λ n. n) u.cost other.cost;
  provider = newest u.provider other.provider;
}

unfoldable pub add_failed : TurnUsage → List CallUsage → TurnUsage
add_failed u [] = u
add_failed u (call ∷ failed) = add_failed (add_call u call) failed
