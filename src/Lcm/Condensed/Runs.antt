-- ===== src/Lcm/Condensed/Runs.antt =====
-- context/lcm/compaction.rs: where the chunks of the condensed pass stand among the items.
use mathlib.Core.List.{map-append}
use kitaebot.Common.{
  ℕ, ◌≤◌, ◌≡◌, ◌⊎◌, inl, inr, refl, ap, sym, subst, ◌∙◌, true, false, ◌&&◌, List, [], ◌∷◌, ◌++◌,
  map, none, some, All, All-append, length, sum_of, sum_of-append, append_assoc, arith, leb,
  Bool-cases, Option-cases,
}
use kitaebot.Config.{LcmConfig}
use kitaebot.Lcm.Store.{Item, Entry, message, summary, SummaryRow, MessageRow}
use kitaebot.Lcm.Condensed.{
  CondensedRow, CondensedChunk, Run, no_run, flush_run, starts_run, new_run, extend_run,
  condensed_row, walk, load_condensed_chunks,
}

unfoldable pub item_of : CondensedRow → Item
item_of r = record { ordinal = r.ordinal; entry = summary r.row }

pub record Qualifies (cfg : LcmConfig) (chunk : CondensedChunk) : Type 0 where
  pub fanout : cfg.min_condensed_fanout ≤ length chunk.rows
  pub budget : sum_of (λ (r : CondensedRow). r.row.token_count) chunk.rows ≤ cfg.leaf_chunk_tokens
  pub depths : All (λ (r : CondensedRow). r.row.depth ≡ chunk.depth) chunk.rows

-- The chunks are runs of neighbouring items, one behind the other.
unfoldable pub Splits : LcmConfig → List Item → List CondensedChunk → Type 0
Splits cfg items [] = Unit
Splits cfg items (c ∷ cs) =
    (pre : List Item) × (post : List Item) × (items ≡ pre ++ (map item_of c.rows ++ post))
    × Qualifies cfg c
    × Splits cfg post cs

Splits-behind :
    (cfg : LcmConfig) (front items : List Item) (chunks : List CondensedChunk)
    → Splits cfg items chunks
    → Splits cfg (front ++ items) chunks
unfolding Splits
Splits-behind cfg front items [] h = tt
Splits-behind cfg front items (c ∷ cs) (pre, post, e, q, h) = (
  front ++ pre,
  post,
  ap (λ is. front ++ is) e ∙ sym (append_assoc front pre (map item_of c.rows ++ post)),
  q,
  h,
)

-- The run at hand is of one depth, and counts its tokens.
record Steady (run : Run) : Type 0 where
  depths : (d : ℕ) → run.depth ≡ some d → All (λ (r : CondensedRow). r.row.depth ≡ d) run.rows
  counted : run.tokens ≡ sum_of (λ (r : CondensedRow). r.row.token_count) run.rows
  empty : run.depth ≡ none → run.rows ≡ []

chunk-Splits :
    (cfg : LcmConfig) (chunk : CondensedChunk) (items : List Item) (later : List CondensedChunk)
    → Qualifies cfg chunk
    → Splits cfg items later
    → Splits cfg (map item_of chunk.rows ++ items) (chunk ∷ later)
unfolding Splits
chunk-Splits cfg chunk items later q h = ([], items, refl, q, h)

flush_run-Splits :
    (cfg : LcmConfig) (run : Run) (items : List Item) (later : List CondensedChunk)
    → Steady run
    → Splits cfg items later
    → Splits cfg (map item_of run.rows ++ items) (flush_run cfg run later)
unfolding flush_run
flush_run-Splits cfg run items later st h = elim (Option-cases run.depth) [
  | inl e ↦ rw (flush_run, e) (Splits-behind cfg (map item_of run.rows) items later h)
  | inr (d, e) ↦
      elim (Bool-cases
        (leb cfg.min_condensed_fanout (length run.rows) && leb run.tokens cfg.leaf_chunk_tokens)) [
          | inl f ↦
              rw (flush_run, e, f)
                (chunk-Splits cfg (record { rows = run.rows; depth = d }) items later
                  (record {
                    fanout = ground arith;
                    budget = let c = st.counted in ground arith;
                    depths = st.depths d e;
                  })
                  h)
          | inr f ↦ rw (flush_run, e, f) (Splits-behind cfg (map item_of run.rows) items later h)
        ]
]

no_run-Steady : Steady no_run
unfolding no_run
no_run-Steady = record { depths = λ d e. tt; counted = omega arith; empty = λ _. refl }

new_run-Steady : (r : CondensedRow) → Steady (new_run r)
unfolding new_run
new_run-Steady r = record { depths = λ d e. (cc, tt); counted = omega arith; empty = λ e. cc }

same_depth : (run : Run) (depth : ℕ) → starts_run run depth ≡ false → run.depth ≡ some depth
unfolding starts_run
same_depth run depth h = ground arith

extend_run-Steady :
    (run : Run) (r : CondensedRow)
    → Steady run
    → run.depth ≡ some r.row.depth
    → Steady (extend_run run r)
unfolding extend_run
extend_run-Steady run r st e =
    let c = st.counted in
    let s = sum_of-append (λ (r : CondensedRow). r.row.token_count) run.rows (r ∷ []) in
    record {
      depths = λ d f.
          All-append (λ (r : CondensedRow). r.row.depth ≡ d) run.rows (r ∷ []) (st.depths d f)
            (cc, tt);
      counted = omega arith;
      empty = λ f. cc;
    }

Entry-cases : (e : Entry) → ((m : MessageRow) × e ≡ message m) ⊎ ((s : SummaryRow) × e ≡ summary s)
Entry-cases (message m) = inl (m, refl)
Entry-cases (summary s) = inr (s, refl)

item_of-condensed_row :
    (i : Item) (s : SummaryRow) → i.entry ≡ summary s → item_of (condensed_row i.ordinal s) ≡ i
unfolding item_of condensed_row
item_of-condensed_row i s e = ap (λ en. record { ordinal = i.ordinal; entry = en }) (sym e)

module _ (cfg : LcmConfig) (run : Run) (i : Item) (is : List Item) where
  walk_message :
      (m : MessageRow)
      → i.entry ≡ message m
      → walk cfg run (i ∷ is) ≡ flush_run cfg run (walk cfg no_run is)
  unfolding walk
  walk_message m e = rw (walk, e) refl

  walk_start :
      (s : SummaryRow)
      → i.entry ≡ summary s
      → starts_run run s.depth ≡ true
      → walk cfg run (i ∷ is)
        ≡ flush_run cfg run (walk cfg (new_run (condensed_row i.ordinal s)) is)
  unfolding walk
  walk_start s e f = rw (walk, e, f) refl

  walk_on :
      (s : SummaryRow)
      → i.entry ≡ summary s
      → starts_run run s.depth ≡ false
      → walk cfg run (i ∷ is) ≡ walk cfg (extend_run run (condensed_row i.ordinal s)) is
  unfolding walk
  walk_on s e f = rw (walk, e, f) refl

extended :
    (run : Run) (i : Item) (s : SummaryRow) (is : List Item)
    → i.entry ≡ summary s
    → map item_of (extend_run run (condensed_row i.ordinal s)).rows ++ is
      ≡ map item_of run.rows ++ i ∷ is
unfolding extend_run
extended run i s is e =
    ap (λ js. js ++ is)
      (map-append item_of run.rows (condensed_row i.ordinal s ∷ [])
        ∙ ap (λ j. map item_of run.rows ++ j ∷ []) (item_of-condensed_row i s e))
    ∙ append_assoc (map item_of run.rows) (i ∷ []) is

walk-Splits :
    (cfg : LcmConfig) (run : Run) (items : List Item)
    → Steady run
    → Splits cfg (map item_of run.rows ++ items) (walk cfg run items)
unfolding walk Splits
walk-Splits cfg run [] st = flush_run-Splits cfg run [] [] st tt
walk-Splits cfg run (i ∷ is) st = elim (Entry-cases i.entry) [
  | inl (m, e) ↦
      let rest = walk cfg no_run is in
      let ih = walk-Splits cfg no_run is no_run-Steady in
      subst (Splits cfg (map item_of run.rows ++ i ∷ is)) (sym (walk_message cfg run i is m e))
        (flush_run-Splits cfg run (i ∷ is) rest st (Splits-behind cfg (i ∷ []) is rest ih))
  | inr (s, e) ↦
      let r = condensed_row i.ordinal s in
      elim (Bool-cases (starts_run run s.depth)) [
        | inl f ↦
            let rest = walk cfg (new_run r) is in
            let ih =
              subst (λ j. Splits cfg (j ∷ is) rest) (item_of-condensed_row i s e)
                (walk-Splits cfg (new_run r) is (new_run-Steady r)) in
            subst (Splits cfg (map item_of run.rows ++ i ∷ is))
              (sym (walk_start cfg run i is s e f)) (flush_run-Splits cfg run (i ∷ is) rest st ih)
        | inr f ↦
            let run' = extend_run run r in
            subst (Splits cfg (map item_of run.rows ++ i ∷ is)) (sym (walk_on cfg run i is s e f)) (
              subst (λ js. Splits cfg js (walk cfg run' is)) (extended run i s is e)
                (walk-Splits cfg run' is (extend_run-Steady run r st (same_depth run s.depth f))))
      ]
]

-- The chunks of the condensed pass are runs of neighbouring summary items, one behind the other,
-- each of one depth, of the least fanout or more, and within the budget.
pub load_condensed_chunks-Splits :
    (cfg : LcmConfig) (items : List Item) → Splits cfg items (load_condensed_chunks cfg items)
unfolding load_condensed_chunks
load_condensed_chunks-Splits cfg items = walk-Splits cfg no_run items no_run-Steady
