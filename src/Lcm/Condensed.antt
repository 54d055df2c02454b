-- ===== src/Lcm/Condensed.antt =====
-- context/lcm/compaction.rs: which runs of summaries the condensed pass collapses, and how a
-- condensed summary is written.
pub mod Runs
pub mod Collapse
use kitaebot.Common.{
  ℕ, zero, suc, ◌+◌, Bool, true, false, ◌&&◌, List, [], ◌∷◌, ◌++◌, map, concat, Option, none, some,
  Text, codes, decimal, Result, ok, err, ◌>>=◌, ◌=?◌, list_key, nat_key, length, sum_of, leb, ◌==◌,
  keep_if, if◌then◌else◌,
}
use kitaebot.Types.{Message, system}
use kitaebot.Config.{LcmConfig}
use kitaebot.Lcm.Summarize.{EscalationOutcome, tag}
use kitaebot.Lcm.Writes.{
  Hashes, derive_summary_id_str, earliest, latest, insert_summary, link_files, replace_items,
}
use kitaebot.Lcm.Store.{Store, Item, Entry, message, summary, SummaryRow, EngineError, to_i64}

-- An item of a summary: its ordinal and its row.
pub record CondensedRow : Type 0 where
  pub ordinal : ℕ
  pub row : SummaryRow

pub record CondensedChunk : Type 0 where
  pub rows : List CondensedRow
  pub depth : ℕ

-- The run at hand: its rows, and the depth and tokens where it has started.
pub record Run : Type 0 where
  pub rows : List CondensedRow
  pub depth : Option ℕ
  pub tokens : ℕ

unfoldable pub no_run : Run
no_run = record { rows = []; depth = none; tokens = 0 }

-- The chunk that the end of a run gives, in front of the chunks of later runs.
unfoldable pub flush_run : LcmConfig → Run → List CondensedChunk → List CondensedChunk
flush_run cfg run later = elim run.depth [
  | none ↦ later
  | some depth ↦
      if leb cfg.min_condensed_fanout (length run.rows) && leb run.tokens cfg.leaf_chunk_tokens
      then record { rows = run.rows; depth = depth } ∷ later
      else later
]

unfoldable pub starts_run : Run → ℕ → Bool
starts_run run depth = elim run.depth [ none ↦ true | some d ↦ if d == depth then false else true ]

unfoldable pub new_run : CondensedRow → Run
new_run r = record { rows = r ∷ []; depth = some r.row.depth; tokens = r.row.token_count }

unfoldable pub extend_run : Run → CondensedRow → Run
extend_run run r = record run { rows = run.rows ++ r ∷ []; tokens = run.tokens + r.row.token_count }

unfoldable pub condensed_row : ℕ → SummaryRow → CondensedRow
condensed_row ordinal s = record { ordinal = ordinal; row = s }

-- The walk over the context items.
unfoldable pub walk : LcmConfig → Run → List Item → List CondensedChunk
unfolding no_run flush_run starts_run new_run extend_run condensed_row
walk cfg run [] = flush_run cfg run []
walk cfg run (i ∷ is) = elim i.entry [
  | message m ↦ flush_run cfg run (walk cfg no_run is)
  | summary s ↦ elim (starts_run run s.depth) [
    | true ↦ flush_run cfg run (walk cfg (new_run (condensed_row i.ordinal s)) is)
    | false ↦ walk cfg (extend_run run (condensed_row i.ordinal s)) is
  ]
]

unfoldable pub load_condensed_chunks : LcmConfig → List Item → List CondensedChunk
unfolding walk
load_condensed_chunks cfg items = walk cfg no_run items

unfoldable pub wrap_child : SummaryRow → Message
wrap_child s = system (
    codes "<summary id=\""
    ++ s.summary_id
    ++ codes "\" depth=\""
    ++ decimal s.depth
    ++ codes "\">\n"
    ++ s.content
    ++ codes "\n</summary>")

unfoldable pub condensed_messages : CondensedChunk → List Message
unfolding wrap_child
condensed_messages chunk = map (λ r. wrap_child r.row) chunk.rows

-- A sum of a column over the chunk.
unfoldable pub total : (SummaryRow → ℕ) → List CondensedRow → ℕ
total column rows = sum_of (λ r. column r.row) rows

unfoldable pub summary_row : Hashes → CondensedChunk → EscalationOutcome → SummaryRow
unfolding derive_summary_id_str earliest latest to_i64 tag total
summary_row h chunk outcome = record {
  summary_id = derive_summary_id_str h outcome.content (map (λ r. r.row.summary_id) chunk.rows);
  kind = codes "condensed";
  depth = chunk.depth + 1;
  content = outcome.content;
  token_count = to_i64 outcome.output_tokens;
  earliest_at = earliest (map (λ r. r.row.earliest_at) chunk.rows);
  latest_at = latest (map (λ r. r.row.latest_at) chunk.rows);
  descendant_count = total (λ s. s.descendant_count) chunk.rows;
  descendant_token_count = total (λ s. s.descendant_token_count) chunk.rows;
  source_message_token_count = total (λ s. s.source_message_token_count) chunk.rows;
  model = tag outcome.level;
}

-- The files of a summary, as linked before.
unfoldable pub files_of : List (Text × Text) → Text → List Text
files_of links id = map (λ l. l.1) (keep_if (λ (l : Text × Text). l.0 =? id) links)

unfoldable pub inherit_files : Text → List CondensedRow → List (Text × Text) → List (Text × Text)
unfolding files_of link_files
inherit_files id [] links = links
inherit_files id (r ∷ rs) links =
    inherit_files id rs (link_files id (files_of links r.row.summary_id) links)

-- The transaction: an error leaves the store as it was.
unfoldable pub write_condensed_summary :
    Hashes → CondensedChunk → EscalationOutcome → Store → Result EngineError Store
unfolding summary_row insert_summary inherit_files replace_items
write_condensed_summary h chunk outcome s = do
  let r = summary_row h chunk outcome
  summaries ← insert_summary r s.summaries
  items ← replace_items (map (λ c. c.ordinal) chunk.rows) r s.items
  ok (record s {
    summaries = summaries;
    items = items;
    summary_parents =
        s.summary_parents
        ++ map (λ (c : CondensedRow). (c.row.summary_id, r.summary_id)) chunk.rows;
    summary_files = inherit_files r.summary_id chunk.rows s.summary_files;
  })
