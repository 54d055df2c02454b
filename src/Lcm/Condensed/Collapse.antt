-- ===== src/Lcm/Condensed/Collapse.antt =====
-- context/lcm/compaction.rs: what the write of a condensed summary does to the context items.
use kitaebot.Common.{
  ℕ, suc, ◌+◌, ◌≤◌, ◌≡◌, refl, ap, sym, subst, ◌∙◌, List, [], ◌∷◌, ◌++◌, map, ok, bind-ok,
  ok_injective, length, length-append, sum_of, sum_of-append, arith,
}
use kitaebot.Lcm.Summarize.{EscalationOutcome}
use kitaebot.Lcm.Store.{Store, Item, message, summary}
use kitaebot.Lcm.Store.Ordered.{Span}
use kitaebot.Lcm.Writes.{Hashes, last_of, insert_summary, replace_items}
use kitaebot.Lcm.Writes.Range.{replace_items_run, summary_item, last_ordinal}
use kitaebot.Lcm.Condensed.{
  CondensedRow, CondensedChunk, total, summary_row, write_condensed_summary,
}
use kitaebot.Lcm.Condensed.Runs.{item_of}

-- The messages that an item stands for, and their tokens, by its own account.
unfoldable pub covered : Item → ℕ
covered i = elim i.entry [ message r ↦ 1 | summary s ↦ s.descendant_count ]

unfoldable pub source_tokens : Item → ℕ
source_tokens i = elim i.entry [
  | message r ↦ r.token_count
  | summary s ↦ s.source_message_token_count
]

-- Some runs of items were collapsed by `n` writes.
pub record Collapsed (n : ℕ) (items items' : List Item) : Type 0 where
  pub fewer : length items' + n ≤ length items
  pub covers : sum_of covered items' ≡ sum_of covered items
  pub sources : sum_of source_tokens items' ≡ sum_of source_tokens items

ordinals_of_items :
    (rows : List CondensedRow) → map (λ i. i.ordinal) (map item_of rows) ≡ map (λ r. r.ordinal) rows
unfolding item_of
ordinals_of_items [] = refl
ordinals_of_items (r ∷ rs) = rw (ordinals_of_items rs) refl

total-covered :
    (rows : List CondensedRow)
    → total (λ s. s.descendant_count) rows ≡ sum_of covered (map item_of rows)
unfolding total covered item_of
total-covered [] = refl
total-covered (r ∷ rs) = omega (arith, total-covered rs)

total-source_tokens :
    (rows : List CondensedRow)
    → total (λ s. s.source_message_token_count) rows ≡ sum_of source_tokens (map item_of rows)
unfolding total source_tokens item_of
total-source_tokens [] = refl
total-source_tokens (r ∷ rs) = omega (arith, total-source_tokens rs)

pub sum_of_parts :
    (f : Item → ℕ) (front run post : List Item)
    → sum_of f (front ++ (run ++ post)) ≡ sum_of f front + (sum_of f run + sum_of f post)
sum_of_parts f front run post =
    omega (arith, sum_of-append f front (run ++ post), sum_of-append f run post)

items_of_ok :
    (h : Hashes) (chunk : CondensedChunk) (outcome : EscalationOutcome) (s s' : Store)
    → write_condensed_summary h chunk outcome s ≡ ok s'
    → replace_items (map (λ c. c.ordinal) chunk.rows) (summary_row h chunk outcome) s.items
      ≡ ok s'.items
unfolding write_condensed_summary
items_of_ok h chunk outcome s s' e =
    let (rows, a, e') = bind-ok (insert_summary (summary_row h chunk outcome) s.summaries) _ s' e in
    let (items, b, e'') =
      bind-ok
        (replace_items (map (λ c. c.ordinal) chunk.rows) (summary_row h chunk outcome) s.items) _ s'
        e' in
    b ∙ ap (λ (t : Store). ok t.items) (ok_injective _ s' e'')

rows_length : (rows : List CondensedRow) → length (map item_of rows) ≡ length rows
rows_length [] = refl
rows_length (r ∷ rs) = ap suc (rows_length rs)

-- The item that takes the place of the run of a chunk.
pub new_item : Hashes → CondensedChunk → EscalationOutcome → CondensedRow → Item
new_item h chunk outcome first = summary_item (item_of first) (summary_row h chunk outcome)

module _ (h : Hashes) (chunk : CondensedChunk) (outcome : EscalationOutcome) (first : CondensedRow)
    (rest : List CondensedRow) (rows : chunk.rows ≡ first ∷ rest) where
  -- A write that succeeds puts the summary in the place of its run.
  pub write_condensed_summary-items :
      (s s' : Store) (lo hi : ℕ) (front post : List Item)
      → s.items ≡ front ++ (map item_of chunk.rows ++ post)
      → Span lo s.items hi
      → write_condensed_summary h chunk outcome s ≡ ok s'
      → (s'.items ≡ front ++ new_item h chunk outcome first ∷ post) × Span lo s'.items hi
  unfolding item_of last_ordinal new_item
  write_condensed_summary-items s s' lo hi front post e span w =
      let written = items_of_ok h chunk outcome s s' w in
      let run = e ∙ ap (λ rs. front ++ (map item_of rs ++ post)) rows in
      let (replaced, span') =
        replace_items_run lo hi front (item_of first) (map item_of rest) post
          (map (λ (c : CondensedRow). c.ordinal) rest) (summary_row h chunk outcome)
          (subst (λ is. Span lo is hi) run span)
          (sym (ap (last_of first.ordinal) (ordinals_of_items rest))) in
      let ran =
        ap (λ (os : List ℕ). replace_items os (summary_row h chunk outcome) s.items)
          (sym (ap (λ rs. map (λ (c : CondensedRow). c.ordinal) rs) rows))
        ∙ written in
      let there =
        ap
          (λ is.
            replace_items (map (λ (c : CondensedRow). c.ordinal) (first ∷ rest))
              (summary_row h chunk outcome) is)
          run in
      let same = ok_injective s'.items _ (sym ran ∙ there ∙ replaced) in
      (same, subst (λ is. Span lo is hi) (sym same) span')

  -- The new summary stands for what the summaries of its run stood for.
  pub run_gives_way :
      (front post : List Item)
      → 2 ≤ length chunk.rows
      → Collapsed 1
          (front ++ (map item_of chunk.rows ++ post))
          (front ++ new_item h chunk outcome first ∷ post)
  unfolding covered source_tokens new_item summary_item summary_row
  run_gives_way front post two =
      let run = map item_of chunk.rows in
      let new = new_item h chunk outcome first in
      record {
        fewer = omega (
          arith,
          length-append front (run ++ post),
          length-append run post,
          length-append front (new ∷ post),
          rows_length chunk.rows,
        );
        covers = omega (
          arith,
          sum_of_parts covered front run post,
          sum_of-append covered front (new ∷ post),
          total-covered chunk.rows,
        );
        sources = omega (
          arith,
          sum_of_parts source_tokens front run post,
          sum_of-append source_tokens front (new ∷ post),
          total-source_tokens chunk.rows,
        );
      }

  -- A condensed summary that is written in the place of two summaries or more leaves fewer items,
  -- which stand for as many messages and source tokens as before.
  pub write_condensed_summary-Collapsed :
      (s s' : Store) (lo hi : ℕ) (front post : List Item)
      → s.items ≡ front ++ (map item_of chunk.rows ++ post)
      → 2 ≤ length chunk.rows
      → Span lo s.items hi
      → write_condensed_summary h chunk outcome s ≡ ok s'
      → Collapsed 1 s.items s'.items
  write_condensed_summary-Collapsed s s' lo hi front post e two span w =
      let (same, _) = write_condensed_summary-items s s' lo hi front post e span w in
      subst (λ is. Collapsed 1 is s'.items) (sym e)
        (subst (Collapsed 1 (front ++ (map item_of chunk.rows ++ post))) (sym same)
          (run_gives_way front post two))
