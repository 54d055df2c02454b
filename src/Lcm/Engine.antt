-- ===== src/Lcm/Engine.antt =====
-- context/lcm/engine.rs: the engine over one conversation: its thresholds, statistics and the three
-- ways in which it compacts.
pub mod Thresholds
use kitaebot.Common.{
  ℕ, ◌+◌, ◌-◌, ◌*◌, ◌/◌, ◌^◌, max, Bool, true, false, not, List, [], ◌∷◌, Option, none, some, Text,
  Result, ok, err, ◌=?◌, list_key, nat_key, ltb, leb, length, sum_of, if◌then◌else◌,
}
use kitaebot.Types.{Message}
use kitaebot.Config.{LcmConfig, ContextConfig}
use kitaebot.Lcm.Store.{Store, EngineError}
use kitaebot.Lcm.Writes.{Hashes}
use kitaebot.Lcm.Ride.{Model, SentRequest}
use kitaebot.Lcm.Compaction.{CompactionEvent, entry_tokens, run_compaction}

pub record LcmEngine : Type 0 where
  pub store : Store
  pub active_name : Text
  pub ctx : ContextConfig
  pub observed_tokens : Option ℕ
  pub last_sent : Option SentRequest

pub record ContextStats : Type 0 where
  pub message_count : ℕ
  pub token_estimate : ℕ
  pub budget : ℕ

-- Two minutes, in nanoseconds.
abbrev pub snapshot_max_age : ℕ
snapshot_max_age = 120000000000

unfoldable pub fresh_enough : LcmEngine → ℕ → SentRequest → Option SentRequest
fresh_enough e now sent =
    if not (sent.session =? e.active_name)
    then none
    else if ltb snapshot_max_age (now - sent.at)
    then none
    else some sent

unfoldable pub ride_context : LcmEngine → ℕ → Option SentRequest
unfolding fresh_enough
ride_context e now = elim e.last_sent [ none ↦ none | some sent ↦ fresh_enough e now sent ]

unfoldable pub soft_threshold : LcmEngine → ℕ
soft_threshold e = e.ctx.max_tokens * e.ctx.lcm.soft_budget_percent / 100

unfoldable pub hard_threshold : LcmEngine → ℕ
hard_threshold e = e.ctx.max_tokens * e.ctx.lcm.hard_budget_percent / 100

-- Count and tokens; a sum that leaves an `i64` fails the query.
unfoldable pub context_stats_query : LcmEngine → Option (ℕ × ℕ)
unfolding entry_tokens
context_stats_query e =
    let sum = sum_of entry_tokens e.store.items in
    if ltb sum (2 ^ 63) then some (length e.store.items, sum) else none

unfoldable pub observed_count : LcmEngine → ℕ
observed_count e = elim e.observed_tokens [ none ↦ 0 | some n ↦ n ]

unfoldable pub row_or_zero : Option (ℕ × ℕ) → ℕ × ℕ
row_or_zero none = (0, 0)
row_or_zero (some row) = row

unfoldable pub stats : LcmEngine → ContextStats
unfolding context_stats_query row_or_zero observed_count soft_threshold
stats e =
    let (count, tokens) = row_or_zero (context_stats_query e) in
    record {
      message_count = count;
      token_estimate = max tokens (observed_count e);
      budget = soft_threshold e;
    }

unfoldable pub observe_tokens : ℕ → LcmEngine → LcmEngine
observe_tokens n e = record e { observed_tokens = some n }

unfoldable pub observe_request : List Message → ℕ → LcmEngine → LcmEngine
observe_request messages now e = record e {
  last_sent = some (record { session = e.active_name; messages = messages; at = now });
}

unfoldable pub clear : LcmEngine → LcmEngine
clear e = record e { store = record e.store { items = [] }; observed_tokens = none }

module _ (m : Model) (h : Hashes) where
  open m use {World}

  -- The engine, the world of the model, and the event, if there was a compaction.
  abbrev pub Compacted : Type 0
  Compacted = LcmEngine × World × Result EngineError (Option CompactionEvent)

  -- The observed count is dropped only where the compaction went well.
  unfoldable pub compacted :
      LcmEngine → Store × World × Result EngineError CompactionEvent → Compacted
  compacted e (s, w, err f) = (record e { store = s }, w, err f)
  compacted e (s, w, ok event) =
      (record e { store = s; observed_tokens = none }, w, ok (some event))

  -- `none` is a compaction that runs out of fuel.
  unfoldable pub force_compact : ℕ → LcmEngine → World → Option Compacted
  unfolding run_compaction ride_context compacted
  force_compact now e w = elim (run_compaction m h e.ctx.lcm (ride_context e now) e.store w) [
    | none ↦ none
    | some r ↦ some (compacted e r)
  ]

  unfoldable pub compact_above : ℕ → ℕ → LcmEngine → World → Option Compacted
  unfolding stats force_compact
  compact_above threshold now e w =
      if ltb (stats e).token_estimate threshold then some (e, w, ok none) else force_compact now e w

  unfoldable pub compact_if_urgent : ℕ → LcmEngine → World → Option Compacted
  unfolding compact_above hard_threshold
  compact_if_urgent now e w = compact_above (hard_threshold e) now e w

  unfoldable pub compact_between_turns : ℕ → LcmEngine → World → Option Compacted
  unfolding compact_above soft_threshold
  compact_between_turns now e w = compact_above (soft_threshold e) now e w
