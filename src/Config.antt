-- ===== src/Config.antt =====
-- config.rs: the `[context]` section and its validation.
pub mod Valid
mod Tests
use kitaebot.Common.{
  ℕ, Bool, true, false, ◌||◌, not, Text, codes, Result, ok, err, ◌>>=◌, ◌>>◌, leb, ltb, ◌==◌, List,
  [], ◌∷◌, if◌then◌else◌,
}

pub record LcmConfig : Type 0 where
  pub fresh_tail_count : ℕ
  pub leaf_chunk_tokens : ℕ
  pub min_condensed_fanout : ℕ
  pub soft_budget_percent : ℕ
  pub hard_budget_percent : ℕ
  pub large_file_threshold : ℕ
  pub large_file_summary_tokens : ℕ

pub data EngineKind : Type 0 where
  flat lcm : EngineKind

pub record ContextConfig : Type 0 where
  pub engine : EngineKind
  pub max_tokens : ℕ
  pub budget_percent : ℕ
  pub tool_output_tokens : ℕ
  pub lcm : LcmConfig

unfoldable pub default_lcm : LcmConfig
default_lcm = record {
  fresh_tail_count = 32;
  leaf_chunk_tokens = 20000;
  min_condensed_fanout = 2;
  soft_budget_percent = 70;
  hard_budget_percent = 90;
  large_file_threshold = 25000;
  large_file_summary_tokens = 400;
}

unfoldable pub default_context : ContextConfig
unfolding default_lcm
default_context = record {
  engine = flat;
  max_tokens = 200000;
  budget_percent = 80;
  tool_output_tokens = 4096;
  lcm = default_lcm;
}

-- A series of `if bad { return Err(…) }`, each with the result that the checks behind it give.
unfoldable pub refuse_first : List (Bool × Text) → Result Text (Unit {0})
refuse_first [] = ok tt
refuse_first ((bad, message) ∷ checks) = if bad then err message else refuse_first checks

unfoldable pub lcm_checks : LcmConfig → List (Bool × Text)
lcm_checks c =
    (c.fresh_tail_count == 0, codes "context.lcm fresh_tail_count must be > 0")
    ∷ (c.leaf_chunk_tokens == 0, codes "context.lcm leaf_chunk_tokens must be > 0")
    ∷ (ltb c.min_condensed_fanout 2, codes "context.lcm min_condensed_fanout must be >= 2")
    ∷ (
      c.soft_budget_percent == 0 || ltb 100 c.soft_budget_percent,
      codes "context.lcm soft_budget_percent must be 1..=100",
    )
    ∷ (
      c.hard_budget_percent == 0 || ltb 100 c.hard_budget_percent,
      codes "context.lcm hard_budget_percent must be 1..=100",
    )
    ∷ (
      leb c.hard_budget_percent c.soft_budget_percent,
      codes "context.lcm soft_budget_percent must be < hard_budget_percent",
    )
    ∷ (c.large_file_threshold == 0, codes "context.lcm large_file_threshold must be > 0")
    ∷ (c.large_file_summary_tokens == 0, codes "context.lcm large_file_summary_tokens must be > 0")
    ∷ []

unfoldable pub validate_lcm : LcmConfig → Result Text (Unit {0})
unfolding lcm_checks
validate_lcm c = refuse_first (lcm_checks c)

unfoldable pub context_checks : ContextConfig → List (Bool × Text)
context_checks c =
    (c.max_tokens == 0, codes "context max_tokens must be > 0")
    ∷ (
      c.budget_percent == 0 || ltb 100 c.budget_percent,
      codes "context budget_percent must be 1..=100",
    )
    ∷ (c.tool_output_tokens == 0, codes "context tool_output_tokens must be > 0")
    ∷ []

unfoldable pub validate : ContextConfig → Result Text (Unit {0})
unfolding validate_lcm context_checks
validate c = refuse_first (context_checks c) >> validate_lcm c.lcm
