-- ===== src/Lcm/Compaction/Termination.antt =====
-- context/lcm/compaction.rs: the condensed pass shrinks the context, so its loop ends.
use kitaebot.Common.{
  ℕ, zero, suc, ◌+◌, ◌≤◌, ◌<◌, ◌≡◌, inl, inr, refl, ap, sym, subst, ◌∙◌, true, false, List, [], ◌∷◌,
  ◌++◌, map, Option, some, Result, ok, err, Result-cases, append_assoc, length, arith, Bool-cases,
}
use kitaebot.Config.{LcmConfig}
use kitaebot.Lcm.Store.{Store, Item, EngineError}
use kitaebot.Lcm.Store.Ordered.{Span, Ascending}
use kitaebot.Lcm.Writes.{Hashes}
use kitaebot.Lcm.Ride.{Model, SentRequest, summarize_chunk}
use kitaebot.Lcm.Condensed.{
  CondensedChunk, CondensedRow, condensed_messages, load_condensed_chunks, write_condensed_summary,
}
use kitaebot.Lcm.Condensed.Runs.{item_of, Splits, load_condensed_chunks-Splits}
use kitaebot.Lcm.Condensed.Collapse.{
  Collapsed, new_item, write_condensed_summary-items, write_condensed_summary-Collapsed,
}
use kitaebot.Lcm.Compaction.{Passed, settle, condensed_pass, condensed_loop, after_ok, is_empty}

Collapsed-refl : (items : List Item) → Collapsed 0 items items
Collapsed-refl items = record { fewer = omega arith; covers = refl; sources = refl }

Collapsed-trans :
    (n k : ℕ) (a b c : List Item) → Collapsed n a b → Collapsed k b c → Collapsed (n + k) a c
Collapsed-trans n k a b c h h' =
    let f = h.fewer in
    let f' = h'.fewer in
    record { fewer = omega arith; covers = h'.covers ∙ h.covers; sources = h'.sources ∙ h.sources }

-- After a pass: `n` runs are collapsed, at least `least` where the pass went well.
pub record Kept (least : ℕ) (items items' : List Item) (r : Result EngineError (Unit {0}))
    : Type 0 where
  pub writes : ℕ
  pub collapsed : Collapsed writes items items'
  pub ascending : Ascending items'
  pub progress : r ≡ ok tt → least ≤ writes

Kept-none :
    (items : List Item) (r : Result EngineError (Unit {0})) → Ascending items → Kept 0 items items r
Kept-none items r h = record {
  writes = 0;
  collapsed = Collapsed-refl items;
  ascending = h;
  progress = λ _. omega arith;
}

Kept-after :
    (least total n : ℕ) (a b c : List Item) (r : Result EngineError (Unit {0}))
    → total ≤ n + least
    → Collapsed n a b
    → Kept least b c r
    → Kept total a c r
Kept-after least total n a b c r le h k = record {
  writes = n + k.writes;
  collapsed = Collapsed-trans n k.writes a b c h k.collapsed;
  ascending = k.ascending;
  progress = λ e. let p = k.progress e in omega arith;
}

rows_first :
    (rows : List CondensedRow)
    → 2 ≤ length rows
    → (first : CondensedRow) × (rest : List CondensedRow) × (rows ≡ first ∷ rest)
rows_first [] h = let absurdity : ⊥ = omega arith in elim absurdity [ ]
rows_first (r ∷ rs) h = (r, rs, refl)

empty_chunks : (cs : List CondensedChunk) → is_empty cs ≡ true → cs ≡ []
unfolding is_empty
empty_chunks [] e = refl
empty_chunks (c ∷ cs) e = cc

some_chunks : (cs : List CondensedChunk) → is_empty cs ≡ false → 1 ≤ length cs
unfolding is_empty
some_chunks [] e = cc
some_chunks (c ∷ cs) e = omega arith

module _ (m : Model) (h : Hashes) (cfg : LcmConfig) (sent : Option SentRequest) where
  open m use {World}

  pub settle_ok :
      (s s' : Store) (w : World) (r : Result EngineError Store) (next : Store → Passed m h cfg sent)
      → r ≡ ok s'
      → settle m h cfg sent s w r next ≡ next s'
  unfolding settle
  settle_ok s s' w r next e = rw e refl

  pub settle_err :
      (s : Store) (w : World) (r : Result EngineError Store) (e : EngineError)
      (next : Store → Passed m h cfg sent)
      → r ≡ err e
      → settle m h cfg sent s w r next ≡ (s, w, err e)
  unfolding settle
  settle_err s w r e next p = rw p refl

  pub after_ok_ok :
      (p : Passed m h cfg sent) (next : Store → World → Option (Passed m h cfg sent))
      → p.2 ≡ ok tt
      → after_ok m h cfg sent p next ≡ next p.0 p.1
  unfolding after_ok
  after_ok_ok (s, w, r) next e = rw e refl

  pub after_ok_err :
      (p : Passed m h cfg sent) (e : EngineError)
      (next : Store → World → Option (Passed m h cfg sent))
      → p.2 ≡ err e
      → after_ok m h cfg sent p next ≡ some p
  unfolding after_ok
  after_ok_err (s, w, r) e next f = rw f refl

  -- What a pass leaves of the items it met.
  unfoldable pub KeptBy : ℕ → List Item → Passed m h cfg sent → Type 0
  KeptBy least items (s, w, r) = Kept least items s.items r

  condensed_pass-KeptBy :
      (chunks : List CondensedChunk) (s : Store) (w : World) (front rest : List Item) (hi : ℕ)
      → 2 ≤ cfg.min_condensed_fanout
      → s.items ≡ front ++ rest
      → Splits cfg rest chunks
      → Span 0 s.items hi
      → KeptBy (length chunks) s.items (condensed_pass m h cfg sent chunks s w)
  unfolding KeptBy condensed_pass Splits Ascending
  condensed_pass-KeptBy [] s w front rest hi two e sp span = Kept-none s.items (ok tt) (hi, span)
  condensed_pass-KeptBy (c ∷ cs) s w front rest hi two e (pre, post, p, q, sp) span =
      let fan = q.fanout in
      let two' : 2 ≤ length c.rows = omega arith in
      let (first, others, rows) = rows_first c.rows two' in
      let (w', outcome) = summarize_chunk m (condensed_messages c) sent w in
      let next = λ (s' : Store). condensed_pass m h cfg sent cs s' w' in
      let there =
        e ∙ ap (λ is. front ++ is) p ∙ sym (append_assoc front pre (map item_of c.rows ++ post)) in
      elim (Result-cases (write_condensed_summary h c outcome s)) [
        | inr (e', f) ↦
            subst (KeptBy (length (c ∷ cs)) s.items)
              (sym (settle_err s w' (write_condensed_summary h c outcome s) e' next f))
              (record {
                writes = 0;
                collapsed = Collapsed-refl s.items;
                ascending = (hi, span);
                progress = λ bad. cc;
              })
        | inl (s', f) ↦
            let new = new_item h c outcome first in
            let (same, span') =
              write_condensed_summary-items h c outcome first others rows s s' 0 hi (front ++ pre)
                post there span f in
            let ih =
              condensed_pass-KeptBy cs s' w' ((front ++ pre) ++ new ∷ []) post hi two
                (same ∙ sym (append_assoc (front ++ pre) (new ∷ []) post)) sp span' in
            let r = next s' in
            subst (KeptBy (length (c ∷ cs)) s.items)
              (sym (settle_ok s s' w' (write_condensed_summary h c outcome s) next f))
              (Kept-after (length cs) (length (c ∷ cs)) 1 s.items s'.items r.0.items r.2
                (omega arith)
                (write_condensed_summary-Collapsed h c outcome first others rows s s' 0 hi
                  (front ++ pre) post there two' span f)
                ih)
      ]

  -- The loop has ended: no run is left to collapse where it went well, and in any case the items
  -- stand for the same messages.
  pub record Ended (items : List Item) (p : Passed m h cfg sent) : Type 0 where
    pub kept : KeptBy 0 items p
    pub settled : p.2 ≡ ok tt → load_condensed_chunks cfg p.0.items ≡ []

  pub condensed_loop-Ended :
      (fuel : ℕ) (s : Store) (w : World)
      → 2 ≤ cfg.min_condensed_fanout
      → Ascending s.items
      → length s.items < fuel
      → (p : Passed m h cfg sent) × (condensed_loop m h cfg sent fuel s w ≡ some p)
        × Ended s.items p
  unfolding condensed_loop KeptBy Ascending
  condensed_loop-Ended zero s w two asc lt = let absurdity : ⊥ = omega arith in elim absurdity [ ]
  condensed_loop-Ended (suc fuel) s w two asc lt =
      let chunks = load_condensed_chunks cfg s.items in
      elim (Bool-cases (is_empty chunks)) [
        | inl e ↦ (
          (s, w, ok tt),
          rw (condensed_loop, e) refl,
          record { kept = Kept-none s.items (ok tt) asc; settled = λ _. empty_chunks chunks e },
        )
        | inr e ↦
            let k =
              condensed_pass-KeptBy chunks s w [] s.items asc.0 two refl
                (load_condensed_chunks-Splits cfg s.items) asc.1 in
            let p = condensed_pass m h cfg sent chunks s w in
            let some_written = some_chunks chunks e in
            elim (Result-cases p.2) [
              | inr (bad, f) ↦ (
                p,
                rw (condensed_loop, e) (after_ok_err p bad (condensed_loop m h cfg sent fuel) f),
                record {
                  kept =
                      Kept-after 0 0 k.writes s.items p.0.items p.0.items p.2 (omega arith)
                        k.collapsed (Kept-none p.0.items p.2 k.ascending);
                  settled = λ good. cc;
                },
              )
              | inl (_, f) ↦
                  let fewer = k.collapsed.fewer in
                  let written = k.progress f in
                  let (q, g, ended) =
                    condensed_loop-Ended fuel p.0 p.1 two k.ascending (omega arith) in
                  (
                    q,
                    rw (condensed_loop, e) (after_ok_ok p (condensed_loop m h cfg sent fuel) f ∙ g),
                    record {
                      kept =
                          Kept-after 0 0 k.writes s.items p.0.items q.0.items q.2 (omega arith)
                            k.collapsed ended.kept;
                      settled = ended.settled;
                    },
                  )
            ]
      ]
