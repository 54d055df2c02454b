-- ===== src/Lcm/Leaf/Selection.antt =====
-- context/lcm/compaction.rs: what the chunks of the leaf pass hold.
use kitaebot.Common.{
  ℕ, ◌+◌, ◌-◌, ◌≤◌, ◌≡◌, ◌⊎◌, inl, inr, refl, ap, sym, subst, ◌∙◌, true, false, not, List, [], ◌∷◌,
  ◌++◌, map, Option, Text, Result, ok, bind-ok, All, concat, keep_if, length, take, sum_of,
  sum_of-append, arith, Bool-cases, leb, append_assoc,
}
use mathlib.Core.List.{map-append}
use kitaebot.Types.{Message}
use kitaebot.Config.{LcmConfig}
use kitaebot.Lcm.Store.{Item, MessageRow, EngineError, reconstruct_message}
use kitaebot.Lcm.Leaf.{
  ChunkRow, chunk_row, message_items, pinned_ordinal, is_pinned, is_full, flush, fill,
  load_leaf_chunks,
}

-- What a row of a chunk says, and what it has to say for a stored message.
abbrev pub Seen : Type 0
Seen = ℕ × ℕ × ℕ × Text × Result EngineError Message

unfoldable pub seen : ChunkRow → Seen
seen r = (r.ordinal, r.message_id, r.token_count, r.created_at, ok r.message)

unfoldable pub stored : ℕ × MessageRow → Seen
stored (ordinal, r) = (ordinal, r.message_id, r.token_count, r.created_at, reconstruct_message r)

unfoldable pub tokens_of : List ChunkRow → ℕ
tokens_of rows = sum_of (λ r. r.token_count) rows

-- A chunk within the budget, or of one message alone.
unfoldable pub Fits : ℕ → List ChunkRow → Type 0
unfolding tokens_of
Fits budget rows = (length rows ≡ 1) ⊎ ((1 ≤ length rows) × (tokens_of rows ≤ budget))

-- The chunk that grows, perhaps still empty.
Growing : ℕ → List ChunkRow → Type 0
unfolding tokens_of
Growing budget rows = (length rows ≤ 1) ⊎ (tokens_of rows ≤ budget)

pub record Filled (budget : ℕ) (chunks : List (List ChunkRow)) (keys : List Seen) : Type 0 where
  pub order : map seen (concat chunks) ≡ keys
  pub sizes : All (Fits budget) chunks

flush-Fits :
    (budget : ℕ) (current : List ChunkRow) (chunks : List (List ChunkRow))
    → Growing budget current
    → All (Fits budget) chunks
    → All (Fits budget) (flush current chunks)
unfolding flush Fits Growing tokens_of
flush-Fits budget [] chunks g h = h
flush-Fits budget (r ∷ rs) chunks (inl g) h = (inl (omega arith), h)
flush-Fits budget (r ∷ rs) chunks (inr g) h = (inr (omega arith, g), h)

concat-flush :
    (current : List ChunkRow) (chunks : List (List ChunkRow))
    → concat (flush current chunks) ≡ current ++ concat chunks
unfolding flush
concat-flush [] chunks = refl
concat-flush (r ∷ rs) chunks = refl

grown :
    (budget ordinal : ℕ) (r : MessageRow) (m : Message) (current : List ChunkRow)
    → is_full budget current (tokens_of current + r.token_count) ≡ false
    → Growing budget (current ++ chunk_row ordinal r m ∷ [])
unfolding is_full Growing chunk_row tokens_of
grown budget ordinal r m [] h = inl (omega arith)
grown budget ordinal r m (c ∷ cs) h =
    let s = sum_of-append (λ (r : ChunkRow). r.token_count) (c ∷ cs) (chunk_row ordinal r m ∷ []) in
    inr (ground arith)

seen-stored :
    (ordinal : ℕ) (r : MessageRow) (m : Message)
    → reconstruct_message r ≡ ok m
    → seen (chunk_row ordinal r m) ≡ stored (ordinal, r)
unfolding seen stored chunk_row
seen-stored ordinal r m e = rw e refl

-- A chunk that is pushed stands in front of what the rest of the rows give.
flush-Filled :
    (budget : ℕ) (current : List ChunkRow) (rest chunks : List (List ChunkRow)) (keys : List Seen)
    → Growing budget current
    → Filled budget rest keys
    → (p : ◌≡◌ {A = Result EngineError (List (List ChunkRow))}
        (ok (flush current rest))
        (ok chunks))
    → Filled budget chunks (map seen current ++ keys)
flush-Filled budget current rest chunks keys g h e =
    let pushed : flush current rest ≡ chunks = cc in
    subst (λ cs. Filled budget cs (map seen current ++ keys)) pushed
      (record {
        order =
            rw (concat-flush current rest)
              (map-append seen current (concat rest) ∙ ap (λ ks. map seen current ++ ks) h.order);
        sizes = flush-Fits budget current rest g h.sizes;
      })

grown-Filled :
    (budget : ℕ) (current : List ChunkRow) (row : ChunkRow) (chunks : List (List ChunkRow))
    (keys : List Seen)
    → Filled budget chunks (map seen (current ++ row ∷ []) ++ keys)
    → Filled budget chunks (map seen current ++ (seen row ∷ keys))
grown-Filled budget current row chunks keys h =
    subst (Filled budget chunks)
      (ap (λ ks. ks ++ keys) (map-append seen current (row ∷ []))
        ∙ append_assoc (map seen current) (seen row ∷ []) keys)
      h

alone : (row : ChunkRow) → row.token_count ≡ tokens_of (row ∷ [])
unfolding tokens_of
alone row = omega arith

more :
    (current : List ChunkRow) (row : ChunkRow)
    → tokens_of current + row.token_count ≡ tokens_of (current ++ row ∷ [])
unfolding tokens_of
more current row = omega (arith, sum_of-append (λ (r : ChunkRow). r.token_count) current (row ∷ []))

-- The rows but the pinned one.
pub kept : Option ℕ → List (ℕ × MessageRow) → List (ℕ × MessageRow)
kept pin rows = keep_if (λ r. not (is_pinned pin r.0)) rows

module _ (pin : Option ℕ) (budget : ℕ) where
  kept_pinned :
      (ordinal : ℕ) (r : MessageRow) (rows : List (ℕ × MessageRow))
      → is_pinned pin ordinal ≡ true
      → kept pin ((ordinal, r) ∷ rows) ≡ kept pin rows
  unfolding kept
  kept_pinned ordinal r rows p = rw p refl

  kept_row :
      (ordinal : ℕ) (r : MessageRow) (m : Message) (rows : List (ℕ × MessageRow))
      → is_pinned pin ordinal ≡ false
      → reconstruct_message r ≡ ok m
      → map stored (kept pin ((ordinal, r) ∷ rows))
        ≡ seen (chunk_row ordinal r m) ∷ map stored (kept pin rows)
  unfolding kept
  kept_row ordinal r m rows p e =
      rw p (ap (λ s. s ∷ map stored (kept pin rows)) (sym (seen-stored ordinal r m e)))

  fill-Filled :
      (current : List ChunkRow) (tokens : ℕ) (rows : List (ℕ × MessageRow))
      (chunks : List (List ChunkRow))
      → tokens ≡ tokens_of current
      → Growing budget current
      → fill pin budget current tokens rows ≡ ok chunks
      → Filled budget chunks (map seen current ++ map stored (kept pin rows))
  unfolding fill tokens_of Growing kept
  fill-Filled current tokens [] chunks e g h =
      flush-Filled budget current [] chunks [] g (record { order = refl; sizes = tt }) h
  fill-Filled current tokens ((ordinal, r) ∷ rows) chunks e g h =
      elim (Bool-cases (is_pinned pin ordinal)) [
        | inl p ↦
            let (rest, h', h'') =
              bind-ok (fill pin budget [] 0 rows) _ chunks (rw (fill, p) at h) in
            let ih = fill-Filled [] 0 rows rest refl (inl (omega arith)) h' in
            subst (λ ks. Filled budget chunks (map seen current ++ map stored ks))
              (sym (kept_pinned ordinal r rows p))
              (flush-Filled budget current rest chunks _ g ih h'')
        | inr p ↦
            let (m, h', h'') = bind-ok (reconstruct_message r) _ chunks (rw (fill, p) at h) in
            let row = chunk_row ordinal r m in
            subst (λ ks. Filled budget chunks (map seen current ++ ks))
              (sym (kept_row ordinal r m rows p h'))
              (elim (Bool-cases (is_full budget current (tokens + r.token_count))) [
                | inl f ↦
                    let (rest, k, k') =
                      bind-ok (fill pin budget (row ∷ []) r.token_count rows) _ chunks
                        (rw f at h'') in
                    let ih =
                      fill-Filled (row ∷ []) r.token_count rows rest (alone row) (inl (omega arith))
                        k in
                    flush-Filled budget current rest chunks _ g ih k'
                | inr f ↦ grown-Filled budget current row chunks (map stored (kept pin rows)) (
                    fill-Filled (current ++ row ∷ []) (tokens + r.token_count) rows chunks
                      (rw e (more current row)) (grown budget ordinal r m current (rw e at f))
                      (rw f at h''))
              ])
      ]

-- The message items outside the fresh tail.
pub eligible : LcmConfig → List Item → List (ℕ × MessageRow)
eligible cfg items =
    take (length (message_items items) - cfg.fresh_tail_count) (message_items items)

no_eligible :
    (cfg : LcmConfig) (items : List Item)
    → leb (length (message_items items)) cfg.fresh_tail_count ≡ true
    → eligible cfg items ≡ []
unfolding eligible
no_eligible cfg items h =
    let none_left : length (message_items items) - cfg.fresh_tail_count ≡ 0 = ground arith in
    rw none_left refl

-- The chunks of the leaf pass hold, in order and each exactly once, the messages outside the fresh
-- tail but the newest user message. Each chunk has one message alone or is within the budget.
pub load_leaf_chunks-Filled :
    (cfg : LcmConfig) (items : List Item) (chunks : List (List ChunkRow))
    → load_leaf_chunks cfg items ≡ ok chunks
    → Filled cfg.leaf_chunk_tokens chunks
        (map stored (kept (pinned_ordinal (message_items items)) (eligible cfg items)))
unfolding load_leaf_chunks eligible tokens_of Growing kept
load_leaf_chunks-Filled cfg items chunks h =
    let pin = pinned_ordinal (message_items items) in
    elim (Bool-cases (leb (length (message_items items)) cfg.fresh_tail_count)) [
      | inl e ↦ rw (no_eligible cfg items e) (
          flush-Filled cfg.leaf_chunk_tokens [] [] chunks [] (inl (omega arith))
            (record { order = refl; sizes = tt }) (rw (load_leaf_chunks, e) at h))
      | inr e ↦
          fill-Filled pin cfg.leaf_chunk_tokens [] 0 (eligible cfg items) chunks refl
            (inl (omega arith)) (rw (load_leaf_chunks, e) at h)
    ]
