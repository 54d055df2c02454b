-- ===== src/Lcm/Writes/Range.antt =====
-- context/lcm/compaction.rs: a run of context items gives way to a summary.
use kitaebot.Common.{ℕ, suc, ◌≤◌, ◌≡◌, List, [], ◌∷◌, ◌++◌, map, ok, arith}
use kitaebot.Lcm.Store.{Item, summary, SummaryRow}
use kitaebot.Lcm.Store.Ordered.{
  Span, Span-from, Span-to, Span-split, replace_run, replaced-Span, Ascending, replaced-Ascending,
}
use kitaebot.Lcm.Writes.{last_of, replace_items}

-- The ordinal of the last item of a run that starts with `i`.
unfoldable pub last_ordinal : Item → List Item → ℕ
unfolding last_of
last_ordinal i is = last_of i.ordinal (map (λ j. j.ordinal) is)

Span-run :
    (lo : ℕ) (i : Item) (is : List Item) (hi : ℕ)
    → Span lo (i ∷ is) hi
    → Span i.ordinal (i ∷ is) (suc (last_ordinal i is))
      × (i.ordinal ≤ last_ordinal i is)
      × (suc (last_ordinal i is) ≤ hi)
unfolding Span last_ordinal last_of
Span-run lo i [] hi (le, h) = ((omega arith, omega arith), omega arith, omega arith)
Span-run lo i (j ∷ js) hi (le, h) =
    let (h', le', le'') = Span-run (suc i.ordinal) j js hi h in
    let (first, rest) = h in ((omega arith, (first, h'.1)), omega arith, le'')

unfoldable pub summary_item : Item → SummaryRow → Item
summary_item i r = record { ordinal = i.ordinal; entry = summary r }

-- A write whose ordinals run from the first to the last item of a run replaces that run.
pub replace_items_run :
    (lo hi : ℕ) (front : List Item) (i : Item) (is post : List Item) (rest : List ℕ)
    (r : SummaryRow)
    → Span lo (front ++ (i ∷ is ++ post)) hi
    → last_of i.ordinal rest ≡ last_ordinal i is
    → (replace_items (i.ordinal ∷ rest) r (front ++ (i ∷ is ++ post))
        ≡ ok (front ++ summary_item i r ∷ post))
      × Span lo (front ++ summary_item i r ∷ post) hi
unfolding replace_items summary_item Span
replace_items_run lo hi front i is post rest r h e =
    let (a, before, h') = Span-split lo front (i ∷ is ++ post) hi h in
    let (b, run, after) = Span-split a (i ∷ is) post hi h' in
    let (run', le, le') = Span-run a i is b run in
    let before' = Span-to lo front a i.ordinal run.0 before in
    let after' = Span-from b (suc (last_ordinal i is)) post hi le' after in
    (
      rw e (
          replace_run lo front (i ∷ is) post (summary_item i r) (last_ordinal i is) hi before' run'
            le after'),
      replaced-Span lo front post (summary_item i r) (last_ordinal i is) hi before' le after',
    )

pub replace_items-Ascending :
    (ordinals : List ℕ) (r : SummaryRow) (items items' : List Item)
    → Ascending items
    → replace_items ordinals r items ≡ ok items'
    → Ascending items'
unfolding replace_items
replace_items-Ascending [] r items items' asc e =
    replaced-Ascending (record { ordinal = 0; entry = summary r }) 0 0 items items' asc e
replace_items-Ascending (first ∷ rest) r items items' asc e =
    replaced-Ascending (record { ordinal = first; entry = summary r }) first (last_of first rest)
      items items' asc e
