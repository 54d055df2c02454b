-- ===== src/Lcm/Compaction/Runs.antt =====
-- context/lcm/compaction.rs: the whole of `run_compaction`.
use kitaebot.Common.{
  ◌≤◌, ◌<◌, ◌≡◌, inl, inr, refl, sym, subst, ◌∙◌, List, [], ◌∷◌, Option, some, Result, ok, err,
  Result-cases, length, arith,
}
use kitaebot.Config.{LcmConfig}
use kitaebot.Lcm.Store.{Store, EngineError}
use kitaebot.Lcm.Store.Ordered.{Ascending}
use kitaebot.Lcm.Writes.{Hashes}
use kitaebot.Lcm.Ride.{Model, SentRequest, summarize_chunk}
use kitaebot.Lcm.Leaf.{ChunkRow, chunk_messages, load_leaf_chunks, write_leaf_summary}
use kitaebot.Lcm.Leaf.Written.{write_leaf_summary-Ascending}
use kitaebot.Lcm.Condensed.{load_condensed_chunks}
use kitaebot.Lcm.Compaction.{
  Passed, leaf_pass, leafed, after_ok, condensed_loop, loop_fuel, event_of, run_compaction,
  CompactionEvent, token_estimate_sync,
}
use kitaebot.Lcm.Compaction.Termination.{
  settle_ok, settle_err, after_ok_ok, after_ok_err, condensed_loop-Ended, KeptBy,
}

module _ (m : Model) (h : Hashes) (cfg : LcmConfig) (sent : Option SentRequest) where
  open m use {World}

  leaf_pass-Ascending :
      (chunks : List (List ChunkRow)) (s : Store) (w : World)
      → Ascending s.items
      → Ascending (leaf_pass m h cfg sent chunks s w).0.items
  unfolding leaf_pass
  leaf_pass-Ascending [] s w asc = asc
  leaf_pass-Ascending (c ∷ cs) s w asc =
      let (w', outcome) = summarize_chunk m (chunk_messages c) sent w in
      let next = λ (s' : Store). leaf_pass m h cfg sent cs s' w' in
      let written = write_leaf_summary h c outcome s in
      elim (Result-cases written) [
        | inr (e, f) ↦
            subst (λ (p : Passed m h cfg sent). Ascending p.0.items)
              (sym (settle_err m h cfg sent s w' written e next f)) asc
        | inl (s', f) ↦
            subst (λ (p : Passed m h cfg sent). Ascending p.0.items)
              (sym (settle_ok m h cfg sent s s' w' written next f))
              (leaf_pass-Ascending cs s' w' (write_leaf_summary-Ascending h c outcome s s' asc f))
      ]

  leafed-Ascending :
      (chunks : Result EngineError (List (List ChunkRow))) (s : Store) (w : World)
      → Ascending s.items
      → Ascending (leafed m h cfg sent chunks s w).0.items
  unfolding leafed
  leafed-Ascending (err e) s w asc = asc
  leafed-Ascending (ok chunks) s w asc = leaf_pass-Ascending chunks s w asc

  enough : (s : Store) → length s.items < loop_fuel s
  unfolding loop_fuel
  enough s = omega arith

  -- Where a run went well, nothing is left to collapse, and the event has the tokens of the items
  -- before and after.
  unfoldable pub Ending : Store → Store → Result EngineError CompactionEvent → Type 0
  Ending s s' (err e) = Unit
  Ending s s' (ok event) =
      (load_condensed_chunks cfg s'.items ≡ [])
      × (event.before ≡ token_estimate_sync s.items)
      × (event.after ≡ token_estimate_sync s'.items)

  pub record Finished (s : Store) (r : Store × World × Result EngineError CompactionEvent)
      : Type 0 where
    pub ascending : Ascending r.0.items
    pub ending : Ending s r.0 r.2

  Settled : Passed m h cfg sent → Type 0
  Settled p = Ascending p.0.items × (p.2 ≡ ok tt → load_condensed_chunks cfg p.0.items ≡ [])

  event_of-Finished :
      (s : Store) (p : Passed m h cfg sent)
      → Settled p
      → Finished s (event_of m h cfg sent (token_estimate_sync s.items) p)
  unfolding event_of Settled Ending
  event_of-Finished s (s', w, err e) (asc, done) = record { ascending = asc; ending = tt }
  event_of-Finished s (s', w, ok _) (asc, done) = record {
    ascending = asc;
    ending = (done refl, refl, refl);
  }

  passes :
      (s : Store) (w : World)
      → 2 ≤ cfg.min_condensed_fanout
      → Ascending s.items
      → (p : Passed m h cfg sent) × (after_ok m h cfg sent
            (leafed m h cfg sent (load_leaf_chunks cfg s.items) s w)
            (λ s' w'. condensed_loop m h cfg sent (loop_fuel s') s' w')
          ≡ some p)
        × Settled p
  unfolding Settled KeptBy
  passes s w two asc =
      let p = leafed m h cfg sent (load_leaf_chunks cfg s.items) s w in
      let asc' = leafed-Ascending (load_leaf_chunks cfg s.items) s w asc in
      let next = λ (s' : Store) (w' : World). condensed_loop m h cfg sent (loop_fuel s') s' w' in
      elim (Result-cases p.2) [
        | inr (e, f) ↦ (p, after_ok_err m h cfg sent p e next f, (asc', λ good. cc))
        | inl (_, f) ↦
            let (q, g, ended) =
              condensed_loop-Ended m h cfg sent (loop_fuel p.0) p.0 p.1 two asc' (enough p.0) in
            (q, after_ok_ok m h cfg sent p next f ∙ g, (ended.kept.ascending, ended.settled))
      ]

  -- A compaction of ordered items comes to an end when the least fanout is two or more, whatever the
  -- model answers and whichever write fails. The items stay ordered. Where it ends well, no run of
  -- summaries is left that the condensed pass would collapse, and the event has the tokens before
  -- and after.
  pub run_compaction-Finished :
      (s : Store) (w : World)
      → 2 ≤ cfg.min_condensed_fanout
      → Ascending s.items
      → (r : Store × World × Result EngineError CompactionEvent) × (run_compaction m h cfg sent s w
          ≡ some r)
        × Finished s r
  unfolding run_compaction
  run_compaction-Finished s w two asc =
      let (p, e, done) = passes s w two asc in
      (
        event_of m h cfg sent (token_estimate_sync s.items) p,
        rw (run_compaction, e) refl,
        event_of-Finished s p done,
      )
