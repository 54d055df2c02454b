-- ===== src/Lcm/Compaction.antt =====
-- context/lcm/compaction.rs: `run_compaction`: the leaf pass once, then the condensed pass until no
-- run of summaries is left to collapse.
pub mod Termination
pub mod Runs
use kitaebot.Common.{
  ℕ, zero, suc, ◌+◌, ◌^◌, Bool, true, false, List, [], ◌∷◌, Option, none, some, Text, Result, ok,
  err, sum_of, ltb, length, if◌then◌else◌,
}
use kitaebot.Types.{Message}
use kitaebot.Config.{LcmConfig}
use kitaebot.Lcm.Summarize.{EscalationOutcome}
use kitaebot.Lcm.Store.{Store, Item, Entry, message, summary, EngineError}
use kitaebot.Lcm.Writes.{Hashes}
use kitaebot.Lcm.Ride.{Model, SentRequest, summarize_chunk}
use kitaebot.Lcm.Leaf.{ChunkRow, chunk_messages, load_leaf_chunks, write_leaf_summary}
use kitaebot.Lcm.Condensed.{
  CondensedChunk, condensed_messages, load_condensed_chunks, write_condensed_summary,
}

unfoldable pub entry_tokens : Item → ℕ
entry_tokens i = elim i.entry [ message r ↦ r.token_count | summary s ↦ s.token_count ]

-- The sum fails where it leaves an `i64`, and a failed query counts as 0.
unfoldable pub token_estimate_sync : List Item → ℕ
unfolding entry_tokens
token_estimate_sync items =
    let sum = sum_of entry_tokens items in if ltb sum (2 ^ 63) then sum else 0

pub record CompactionEvent : Type 0 where
  pub before : ℕ
  pub after : ℕ

-- A condensed pass that writes anything leaves fewer items.
unfoldable pub loop_fuel : Store → ℕ
loop_fuel s = suc (length s.items)

unfoldable pub is_empty : List CondensedChunk → Bool
is_empty [] = true
is_empty (c ∷ cs) = false

module _ (m : Model) (h : Hashes) (cfg : LcmConfig) (sent : Option SentRequest) where
  open m use {World}

  -- The store, the world of the model and what came of the pass: writes that were committed stay
  -- where a later one fails.
  abbrev pub Passed : Type 0
  Passed = Store × World × Result EngineError (Unit {0})

  unfoldable pub settle : Store → World → Result EngineError Store → (Store → Passed) → Passed
  settle s w (err e) next = (s, w, err e)
  settle s w (ok s') next = next s'

  unfoldable pub leaf_pass : List (List ChunkRow) → Store → World → Passed
  unfolding settle chunk_messages
  leaf_pass [] s w = (s, w, ok tt)
  leaf_pass (chunk ∷ chunks) s w =
      let (w', outcome) = summarize_chunk m (chunk_messages chunk) sent w in
      settle s w' (write_leaf_summary h chunk outcome s) (λ s'. leaf_pass chunks s' w')

  unfoldable pub condensed_pass : List CondensedChunk → Store → World → Passed
  unfolding settle condensed_messages
  condensed_pass [] s w = (s, w, ok tt)
  condensed_pass (chunk ∷ chunks) s w =
      let (w', outcome) = summarize_chunk m (condensed_messages chunk) sent w in
      settle s w' (write_condensed_summary h chunk outcome s) (λ s'. condensed_pass chunks s' w')

  unfoldable pub after_ok : Passed → (Store → World → Option Passed) → Option Passed
  after_ok (s, w, ok _) next = next s w
  after_ok (s, w, err e) next = some (s, w, err e)

  -- The loop, which runs out of fuel as `none`.
  unfoldable pub condensed_loop : ℕ → Store → World → Option Passed
  unfolding is_empty condensed_pass after_ok
  condensed_loop zero s w = none
  condensed_loop (suc fuel) s w =
      let chunks = load_condensed_chunks cfg s.items in
      elim (is_empty chunks) [
        | true ↦ some (s, w, ok tt)
        | false ↦ after_ok (condensed_pass chunks s w) (condensed_loop fuel)
      ]

  unfoldable pub leafed : Result EngineError (List (List ChunkRow)) → Store → World → Passed
  unfolding leaf_pass
  leafed (err e) s w = (s, w, err e)
  leafed (ok chunks) s w = leaf_pass chunks s w

  unfoldable pub event_of : ℕ → Passed → Store × World × Result EngineError CompactionEvent
  unfolding token_estimate_sync
  event_of before (s, w, err e) = (s, w, err e)
  event_of before (s, w, ok _) =
      (s, w, ok (record { before = before; after = token_estimate_sync s.items }))

  unfoldable pub run_compaction :
      Store → World → Option (Store × World × Result EngineError CompactionEvent)
  unfolding token_estimate_sync leafed after_ok condensed_loop loop_fuel event_of
  run_compaction s w =
      let before = token_estimate_sync s.items in
      elim (after_ok (leafed (load_leaf_chunks cfg s.items) s w)
        (λ s' w'. condensed_loop (loop_fuel s') s' w')) [
          | none ↦ none
          | some passed ↦ some (event_of before passed)
        ]
