-- ===== src/Lcm/Engine/Thresholds.antt =====
-- context/lcm/engine.rs: when the engine compacts, and what it reports afterwards.
use kitaebot.Common.{
  ℕ, ◌*◌, ◌/◌, ◌^◌, ◌≤◌, ◌<◌, ◌≡◌, ◌⊎◌, inl, inr, refl, sym, ◌∙◌, Option, none, some, [], Result,
  ok, err, Bool-cases, ltb, sum_of, arith,
}
use native.Mathlib.Nat.{mul-le-mul_left}
use kitaebot.Config.{validate}
use kitaebot.Config.Valid.{validate_iff}
use kitaebot.Lcm.Condensed.{load_condensed_chunks}
use kitaebot.Lcm.Store.{Store, EngineError}
use kitaebot.Lcm.Store.Ordered.{Ascending}
use kitaebot.Lcm.Writes.{Hashes}
use kitaebot.Lcm.Ride.{Model, SentRequest}
use kitaebot.Lcm.Compaction.{CompactionEvent, entry_tokens, token_estimate_sync}
use kitaebot.Lcm.Compaction.Runs.{Ending, Finished, run_compaction-Finished}
use kitaebot.Lcm.Engine.{
  LcmEngine, stats, observed_count, context_stats_query, row_or_zero, soft_threshold,
  hard_threshold, ride_context, Compacted, compacted, force_compact, compact_above,
  compact_if_urgent, compact_between_turns,
}

div_mono : (a b : ℕ) → a ≤ b → a / 100 ≤ b / 100
div_mono a b h = omega arith

percent_mono : (n p q : ℕ) → p ≤ q → n * p / 100 ≤ n * q / 100
percent_mono n p q h = let le = mul-le-mul_left n h in div_mono (n * p) (n * q) le

-- The soft threshold is at most the hard one, and both lie within the context window, when the
-- configuration is valid.
pub thresholds_ordered :
    (e : LcmEngine)
    → validate e.ctx ≡ ok tt
    → (soft_threshold e ≤ hard_threshold e) × (hard_threshold e ≤ e.ctx.max_tokens)
unfolding soft_threshold hard_threshold
thresholds_ordered e h =
    let v = (validate_iff e.ctx).0 h in
    let order = v.lcm.order in
    let whole = percent_mono e.ctx.max_tokens e.ctx.lcm.hard_budget_percent 100 v.lcm.hard in
    (
      percent_mono e.ctx.max_tokens e.ctx.lcm.soft_budget_percent e.ctx.lcm.hard_budget_percent
          (omega arith),
      omega arith,
    )

-- Without an observed count the estimate is the sum over the items.
stats_unobserved :
    (e : LcmEngine)
    → e.observed_tokens ≡ none
    → (stats e).token_estimate ≡ token_estimate_sync e.store.items
unfolding stats context_stats_query row_or_zero observed_count token_estimate_sync
stats_unobserved e h = elim (Bool-cases (ltb (sum_of entry_tokens e.store.items) (2 ^ 63))) [
  | inl f ↦ rw (stats, f, h) (omega arith)
  | inr f ↦ rw (stats, f, h) (omega arith)
]

module _ (m : Model) (h : Hashes) where
  open m use {World}

  -- What a compaction leaves: where it failed, the observed count of before; where it went well, no
  -- run of summaries to collapse, and the reported tokens.
  unfoldable pub Reports :
      LcmEngine → LcmEngine → Result EngineError (Option CompactionEvent) → Type 0
  Reports e e' (err f) = e'.observed_tokens ≡ e.observed_tokens
  Reports e e' (ok none) = ⊥
  Reports e e' (ok (some event)) =
      ((stats e').token_estimate ≡ event.after)
      × (event.before ≡ token_estimate_sync e.store.items)
      × (load_condensed_chunks e.ctx.lcm e'.store.items ≡ [])

  pub record Rested (e : LcmEngine) (c : Compacted m h) : Type 0 where
    pub ascending : Ascending c.0.store.items
    pub reports : Reports e c.0 c.2

  compacted-Rested :
      (e : LcmEngine) (sent : Option SentRequest)
      (r : Store × World × Result EngineError CompactionEvent)
      → Finished m h e.ctx.lcm sent e.store r
      → Rested e (compacted m h e r)
  unfolding compacted Reports Ending
  compacted-Rested e sent (s, w, err f) done = record { ascending = done.ascending; reports = refl }
  compacted-Rested e sent (s, w, ok event) done =
      let (settled, before, after) = done.ending in
      record {
        ascending = done.ascending;
        reports = (
          stats_unobserved (record e { store = s; observed_tokens = none }) refl ∙ sym after,
          before,
          settled,
        );
      }

  -- A forced compaction of ordered items under a valid configuration comes to an end.
  force_compact-Rested :
      (now : ℕ) (e : LcmEngine) (w : World)
      → validate e.ctx ≡ ok tt
      → Ascending e.store.items
      → (c : Compacted m h) × (force_compact m h now e w ≡ some c) × Rested e c
  unfolding force_compact
  force_compact-Rested now e w valid asc =
      let fanout = ((validate_iff e.ctx).0 valid).lcm.fanout in
      let sent = ride_context e now in
      let (r, a, done) = run_compaction-Finished m h e.ctx.lcm sent e.store w fanout asc in
      (compacted m h e r, rw (force_compact, a) refl, compacted-Rested e sent r done)

  -- Below its threshold a compaction leaves the engine alone; from it on it runs.
  unfoldable pub Triggered : ℕ → LcmEngine → World → Compacted m h → Type 0
  Triggered threshold e w c =
      (((stats e).token_estimate < threshold) × (c ≡ (e, w, ok none)))
      ⊎ ((threshold ≤ (stats e).token_estimate) × Rested e c)

  compact_above-Triggered :
      (threshold now : ℕ) (e : LcmEngine) (w : World)
      → validate e.ctx ≡ ok tt
      → Ascending e.store.items
      → (c : Compacted m h) × (compact_above m h threshold now e w ≡ some c)
        × Triggered threshold e w c
  unfolding compact_above Triggered
  compact_above-Triggered threshold now e w valid asc =
      elim (Bool-cases (ltb (stats e).token_estimate threshold)) [
        | inl f ↦ ((e, w, ok none), rw (compact_above, f) refl, inl (ground arith, refl))
        | inr f ↦
            let (c, a, rested) = force_compact-Rested now e w valid asc in
            (c, rw (compact_above, f) a, inr (ground arith, rested))
      ]

  -- Under a valid configuration and with ordered items, both automatic compactions come to an end,
  -- whatever the model answers. Each leaves the engine alone below its threshold and compacts from it
  -- on. Where that goes well, the statistics give the tokens that the event reports, and no run of
  -- summaries is left to collapse; where it fails, the observed count stays.
  pub compact-Triggered :
      (now : ℕ) (e : LcmEngine) (w : World)
      → validate e.ctx ≡ ok tt
      → Ascending e.store.items
      → ((c : Compacted m h) × (compact_if_urgent m h now e w ≡ some c)
          × Triggered (hard_threshold e) e w c)
        × ((c : Compacted m h) × (compact_between_turns m h now e w ≡ some c)
            × Triggered (soft_threshold e) e w c)
  unfolding compact_if_urgent compact_between_turns
  compact-Triggered now e w valid asc = (
    compact_above-Triggered (hard_threshold e) now e w valid asc,
    compact_above-Triggered (soft_threshold e) now e w valid asc,
  )
