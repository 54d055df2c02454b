-- ===== src/Lcm/Leaf.antt =====
-- context/lcm/compaction.rs: which messages the leaf pass summarizes, and how a leaf summary is
-- written.
pub mod Selection
pub mod Written
use kitaebot.Common.{
  ℕ, zero, suc, ◌+◌, ◌-◌, max, Bool, true, false, ◌&&◌, ◌||◌, not, List, [], ◌∷◌, ◌++◌, map, Option,
  none, some, Text, codes, Result, ok, err, ◌>>=◌, ◌>>◌, guard, ◌=?◌, list_key, nat_key, pair_key,
  length, take, sum_of, leb, ltb, ◌==◌, any, keep_if, concat, if◌then◌else◌,
}
use kitaebot.Types.{Message, content}
use kitaebot.Config.{LcmConfig}
use kitaebot.Lcm.Summarize.{EscalationOutcome, tag}
use kitaebot.Lcm.Writes.{
  Hashes, derive_summary_id, earliest, latest, insert_summary, link_files, extract_file_ids,
  replace_items,
}
use kitaebot.Lcm.Store.{
  Store, Item, Entry, message, summary, MessageRow, SummaryRow, LargeFile, EngineError, constraint,
  reconstruct_message, insert_item, delete_between, to_i64,
}

pub record ChunkRow : Type 0 where
  pub ordinal : ℕ
  pub message_id : ℕ
  pub token_count : ℕ
  pub created_at : Text
  pub message : Message

-- The rows of the query: message items with the ordinal of their item.
unfoldable pub message_items : List Item → List (ℕ × MessageRow)
message_items [] = []
message_items (i ∷ is) = elim i.entry [
  | message r ↦ (i.ordinal, r) ∷ message_items is
  | summary s ↦ message_items is
]

unfoldable pub is_user : ℕ × MessageRow → Bool
is_user (ordinal, r) = r.role =? codes "user"

-- `filter(…).map(…).max()`.
unfoldable pub pinned_ordinal : List (ℕ × MessageRow) → Option ℕ
unfolding is_user
pinned_ordinal [] = none
pinned_ordinal (r ∷ rs) =
    let rest = pinned_ordinal rs in
    if is_user r then some (elim rest [ none ↦ r.0 | some n ↦ max r.0 n ]) else rest

unfoldable pub is_pinned : Option ℕ → ℕ → Bool
is_pinned none ordinal = false
is_pinned (some n) ordinal = ordinal == n

unfoldable pub chunk_row : ℕ → MessageRow → Message → ChunkRow
chunk_row ordinal r m = record {
  ordinal = ordinal;
  message_id = r.message_id;
  token_count = r.token_count;
  created_at = r.created_at;
  message = m;
}

-- A chunk is pushed when it has a row.
unfoldable pub flush : List ChunkRow → List (List ChunkRow) → List (List ChunkRow)
flush [] chunks = chunks
flush (r ∷ rs) chunks = (r ∷ rs) ∷ chunks

unfoldable pub is_full : ℕ → List ChunkRow → ℕ → Bool
is_full budget [] tokens = false
is_full budget (r ∷ rs) tokens = ltb budget tokens

-- The loop over the eligible rows: `current` is the chunk that grows, `tokens` its size.
unfoldable pub fill :
    Option ℕ
    → ℕ
    → List ChunkRow
    → ℕ
    → List (ℕ × MessageRow)
    → Result EngineError (List (List ChunkRow))
unfolding is_pinned is_full flush chunk_row reconstruct_message
fill pin budget current tokens [] = ok (flush current [])
fill pin budget current tokens ((ordinal, r) ∷ rs) = elim (is_pinned pin ordinal) [
  | true ↦ fill pin budget [] 0 rs >>= (λ chunks. ok (flush current chunks))
  | false ↦ do
    m ← reconstruct_message r
    let row = chunk_row ordinal r m
    elim (is_full budget current (tokens + r.token_count)) [
      | true ↦ fill pin budget (row ∷ []) r.token_count rs >>= (λ chunks. ok (flush current chunks))
      | false ↦ fill pin budget (current ++ row ∷ []) (tokens + r.token_count) rs
    ]
]

unfoldable pub load_leaf_chunks : LcmConfig → List Item → Result EngineError (List (List ChunkRow))
unfolding message_items pinned_ordinal fill
load_leaf_chunks cfg items =
    let raw = message_items items in
    if leb (length raw) cfg.fresh_tail_count
    then ok []
    else fill (pinned_ordinal raw) cfg.leaf_chunk_tokens [] 0
        (take (length raw - cfg.fresh_tail_count) raw)

unfoldable pub chunk_messages : List ChunkRow → List Message
chunk_messages rows = map (λ r. r.message) rows

-- The ids in a chunk's messages that name a stored file.
unfoldable pub known_files : List LargeFile → List Text → List Text
known_files files ids = keep_if (λ i. any (λ f. f.file_id =? i) files) ids

unfoldable pub leaf_row : Hashes → List ChunkRow → EscalationOutcome → SummaryRow
unfolding derive_summary_id earliest latest to_i64 tag
leaf_row h rows outcome = record {
  summary_id = derive_summary_id h outcome.content (map (λ r. r.message_id) rows);
  kind = codes "leaf";
  depth = 0;
  content = outcome.content;
  token_count = to_i64 outcome.output_tokens;
  earliest_at = earliest (map (λ r. r.created_at) rows);
  latest_at = latest (map (λ r. r.created_at) rows);
  descendant_count = to_i64 (length rows);
  descendant_token_count = sum_of (λ r. r.token_count) rows;
  source_message_token_count = sum_of (λ r. r.token_count) rows;
  model = tag outcome.level;
}

-- The transaction: an error leaves the store as it was.
unfoldable pub write_leaf_summary :
    Hashes → List ChunkRow → EscalationOutcome → Store → Result EngineError Store
unfolding leaf_row insert_summary link_files extract_file_ids known_files replace_items
write_leaf_summary h rows outcome s = do
  let r = leaf_row h rows outcome
  summaries ← insert_summary r s.summaries
  items ← replace_items (map (λ c. c.ordinal) rows) r s.items
  ok (record s {
    summaries = summaries;
    items = items;
    summary_messages =
        s.summary_messages ++ map (λ (c : ChunkRow). (r.summary_id, c.message_id)) rows;
    summary_files =
        link_files r.summary_id
          (known_files s.large_files
            (concat (map (λ c. extract_file_ids h (content c.message)) rows)))
          s.summary_files;
  })
