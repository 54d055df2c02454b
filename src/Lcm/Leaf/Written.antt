-- ===== src/Lcm/Leaf/Written.antt =====
-- context/lcm/compaction.rs: what the write of a leaf summary does to the context items.
use kitaebot.Common.{
  suc, ◌+◌, ◌<◌, ◌^◌, ◌≡◌, ap, sym, subst, ◌∙◌, List, ◌∷◌, ◌++◌, map, ok, bind-ok, ok_injective,
  length, sum_of, sum_of-append, arith,
}
use kitaebot.Lcm.Summarize.{EscalationOutcome}
use kitaebot.Lcm.Store.{Store, Item, to_i64}
use kitaebot.Lcm.Store.Ordered.{Span, Ascending}
use kitaebot.Lcm.Writes.{Hashes, last_of, insert_summary, replace_items}
use kitaebot.Lcm.Writes.Range.{
  replace_items_run, summary_item, last_ordinal, replace_items-Ascending,
}
use kitaebot.Lcm.Leaf.{ChunkRow, leaf_row, write_leaf_summary}
use kitaebot.Lcm.Condensed.Collapse.{covered, sum_of_parts}

written_items :
    (h : Hashes) (rows : List ChunkRow) (outcome : EscalationOutcome) (s s' : Store)
    → write_leaf_summary h rows outcome s ≡ ok s'
    → replace_items (map (λ c. c.ordinal) rows) (leaf_row h rows outcome) s.items ≡ ok s'.items
unfolding write_leaf_summary
written_items h rows outcome s s' e =
    let (summaries, a, e') =
      bind-ok (insert_summary (leaf_row h rows outcome) s.summaries) _ s' e in
    let (items, b, e'') =
      bind-ok (replace_items (map (λ c. c.ordinal) rows) (leaf_row h rows outcome) s.items) _ s'
        e' in
    b ∙ ap (λ (t : Store). ok t.items) (ok_injective _ s' e'')

pub write_leaf_summary-Ascending :
    (h : Hashes) (rows : List ChunkRow) (outcome : EscalationOutcome) (s s' : Store)
    → Ascending s.items
    → write_leaf_summary h rows outcome s ≡ ok s'
    → Ascending s'.items
write_leaf_summary-Ascending h rows outcome s s' asc e =
    replace_items-Ascending (map (λ c. c.ordinal) rows) (leaf_row h rows outcome) s.items s'.items
      asc (written_items h rows outcome s s' e)

new_covered :
    (h : Hashes) (first : ChunkRow) (rest : List ChunkRow) (outcome : EscalationOutcome) (i : Item)
    → suc (length rest) < 2 ^ 63
    → covered (summary_item i (leaf_row h (first ∷ rest) outcome)) ≡ suc (length rest)
unfolding covered summary_item leaf_row to_i64
new_covered h first rest outcome i small = ground arith

-- A leaf summary takes the place of every item from the first to the last message of its chunk, and
-- stands for the messages of the chunk alone: what else the range stood for is lost from the items.
pub write_leaf_summary-covered :
    (h : Hashes) (first : ChunkRow) (rest : List ChunkRow) (outcome : EscalationOutcome)
    (s s' : Store) (front : List Item) (i : Item) (is post : List Item)
    → s.items ≡ front ++ (i ∷ is ++ post)
    → first.ordinal ≡ i.ordinal
    → last_of first.ordinal (map (λ c. c.ordinal) rest) ≡ last_ordinal i is
    → suc (length rest) < 2 ^ 63
    → Ascending s.items
    → write_leaf_summary h (first ∷ rest) outcome s ≡ ok s'
    → sum_of covered s'.items + sum_of covered (i ∷ is) ≡ sum_of covered s.items + suc (length rest)
unfolding Ascending
write_leaf_summary-covered h first rest outcome s s' front i is post e f l small (hi, span) w =
    let r = leaf_row h (first ∷ rest) outcome in
    let (replaced, _) =
      replace_items_run 0 hi front i is post (map (λ (c : ChunkRow). c.ordinal) rest) r
        (subst (λ js. Span 0 js hi) e span)
        (ap (λ n. last_of n (map (λ (c : ChunkRow). c.ordinal) rest)) (sym f) ∙ l) in
    let written = written_items h (first ∷ rest) outcome s s' w in
    let there =
      ap (λ n. replace_items (n ∷ map (λ (c : ChunkRow). c.ordinal) rest) r s.items) f
      ∙ ap (replace_items (i.ordinal ∷ map (λ (c : ChunkRow). c.ordinal) rest) r) e in
    let same = ok_injective s'.items _ (sym written ∙ there ∙ replaced) in
    omega (
      arith,
      ap (sum_of covered) same,
      ap (sum_of covered) e,
      sum_of_parts covered front (i ∷ is) post,
      sum_of-append covered front (summary_item i r ∷ post),
      new_covered h first rest outcome i small,
    )
