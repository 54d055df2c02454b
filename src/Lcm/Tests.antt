-- ===== src/Lcm/Tests.antt =====
-- The context engine at work on a short conversation, with a model that answers one word.
use kitaebot.Common.{
  ℕ, ◌+◌, ◌≡◌, refl, List, [], ◌∷◌, ◌++◌, map, none, some, Text, codes, Result, ok, sum_of, arith,
  list_key, nat_key,
}
use kitaebot.Types.{assistant}
use kitaebot.Config.{LcmConfig, ContextConfig, flat, validate}
use kitaebot.Lcm.Summarize.{EscalationOutcome, normal}
use kitaebot.Lcm.Store.{
  Store, Item, message, summary, MessageRow, SummaryRow, repair_dangling_tool_calls, dangling,
  message_row,
}
use kitaebot.Lcm.Store.Ordered.{Span, Ascending}
use kitaebot.Lcm.Writes.{Hashes, last_of}
use kitaebot.Lcm.Writes.Range.{last_ordinal}
use kitaebot.Lcm.Ride.{Model}
use kitaebot.Lcm.Leaf.{
  ChunkRow, load_leaf_chunks, leaf_row, write_leaf_summary, pinned_ordinal, message_items,
}
use kitaebot.Lcm.Leaf.Selection.{Filled, stored, kept, eligible, load_leaf_chunks-Filled}
use kitaebot.Lcm.Leaf.Written.{write_leaf_summary-covered}
use kitaebot.Lcm.Condensed.{
  CondensedRow, CondensedChunk, load_condensed_chunks, summary_row, write_condensed_summary,
}
use kitaebot.Lcm.Condensed.Runs.{Splits, item_of, load_condensed_chunks-Splits}
use kitaebot.Lcm.Condensed.Collapse.{Collapsed, covered, write_condensed_summary-Collapsed}
use kitaebot.Lcm.Compaction.{CompactionEvent, run_compaction}
use kitaebot.Lcm.Compaction.Runs.{Finished, run_compaction-Finished}
use kitaebot.Lcm.Engine.{
  LcmEngine, soft_threshold, hard_threshold, compact_if_urgent, compact_between_turns, Compacted,
}
use kitaebot.Lcm.Engine.Thresholds.{Triggered, compact-Triggered}

abbrev one_word : Model
one_word = record {
  World = Unit {0};
  summarize = λ prompt messages w. (w, ok (codes "brief"));
  chat = λ session messages w. (w, ok (codes "brief"));
  debug = λ t. t;
}

abbrev hashes : Hashes
hashes = record { sha256 = λ t. t; find_file_ids = λ t. [] }

abbrev tiny : LcmConfig
tiny = record {
  fresh_tail_count = 1;
  leaf_chunk_tokens = 10;
  min_condensed_fanout = 2;
  soft_budget_percent = 70;
  hard_budget_percent = 90;
  large_file_threshold = 10;
  large_file_summary_tokens = 10;
}

abbrev row : ℕ → Text → Text → MessageRow
row n role text = record {
  message_id = n + 1;
  seq = n;
  role = role;
  content = text;
  token_count = 3;
  created_at = codes "2025";
  parts = [];
}

abbrev old_summary : ℕ → SummaryRow
old_summary n = record {
  summary_id = (b'0' + n) ∷ [];
  kind = codes "leaf";
  depth = 0;
  content = codes "s";
  token_count = 2;
  earliest_at = codes "2025";
  latest_at = codes "2025";
  descendant_count = 5;
  descendant_token_count = 15;
  source_message_token_count = 15;
  model = codes "level1";
}

abbrev message_at : ℕ → Text → Item
message_at n role = record { ordinal = n; entry = message (row n role (codes "text")) }

abbrev summary_at : ℕ → Item
summary_at n = record { ordinal = n; entry = summary (old_summary n) }

abbrev store_of : List Item → Store
store_of items = record {
  last_rowid = 9;
  messages = [];
  items = items;
  summaries = [];
  summary_messages = [];
  summary_parents = [];
  summary_files = [];
  large_files = [];
}

-- An old message, the summary of what followed it, another message, and a new request.
abbrev mixed : List Item
mixed =
    message_at 0 (codes "assistant")
    ∷ summary_at 1
    ∷ message_at 2 (codes "assistant")
    ∷ message_at 3 (codes "user")
    ∷ []

mixed-Ascending : Ascending mixed
unfolding Ascending Span
mixed-Ascending = (4, (omega arith, (omega arith, (omega arith, (omega arith, omega arith)))))

run_compaction-Finished_example :
    (r : Store × Unit {0} × Result kitaebot.Lcm.Store.EngineError CompactionEvent) × (run_compaction
        one_word hashes tiny none
        (store_of mixed)
        tt
      ≡ some r)
    × Finished one_word hashes tiny none (store_of mixed) r
run_compaction-Finished_example =
    run_compaction-Finished one_word hashes tiny none (store_of mixed) tt (omega arith)
      mixed-Ascending

abbrev context : ContextConfig
context = record {
  engine = flat;
  max_tokens = 20;
  budget_percent = 80;
  tool_output_tokens = 10;
  lcm = tiny;
}

abbrev engine : LcmEngine
engine = record {
  store = store_of mixed;
  active_name = codes "general";
  ctx = context;
  observed_tokens = some 19;
  last_sent = none;
}

context_valid : validate context ≡ ok tt
unfolding validate kitaebot.Config.refuse_first
context_valid = refl

compact-Triggered_example :
    ((c : Compacted one_word hashes) × (compact_if_urgent one_word hashes 0 engine tt ≡ some c)
      × Triggered one_word hashes (hard_threshold engine) engine tt c)
    × ((c : Compacted one_word hashes) × (compact_between_turns one_word hashes 0 engine tt
          ≡ some c)
        × Triggered one_word hashes (soft_threshold engine) engine tt c)
compact-Triggered_example =
    compact-Triggered one_word hashes 0 engine tt context_valid mixed-Ascending

abbrev chunk_row_at : ℕ → ChunkRow
chunk_row_at n = record {
  ordinal = n;
  message_id = n + 1;
  token_count = 3;
  created_at = codes "2025";
  message = assistant (codes "text");
}

abbrev mixed_chunk : List ChunkRow
mixed_chunk = chunk_row_at 0 ∷ chunk_row_at 2 ∷ []

mixed_chunks : load_leaf_chunks tiny mixed ≡ ok (mixed_chunk ∷ [])
unfolding load_leaf_chunks
mixed_chunks = refl

load_leaf_chunks-Filled_example :
    Filled 10
      (mixed_chunk ∷ [])
      (map stored (kept (pinned_ordinal (message_items mixed)) (eligible tiny mixed)))
load_leaf_chunks-Filled_example = load_leaf_chunks-Filled tiny mixed (mixed_chunk ∷ []) mixed_chunks

abbrev brief : EscalationOutcome
brief = record { content = codes "brief"; level = normal; input_tokens = 6; output_tokens = 1 }

abbrev leaf_written : Store
leaf_written = record (store_of mixed) {
  items =
      record { ordinal = 0; entry = summary (leaf_row hashes mixed_chunk brief) }
      ∷ message_at 3 (codes "user")
      ∷ [];
  summaries = leaf_row hashes mixed_chunk brief ∷ [];
  summary_messages =
      ((leaf_row hashes mixed_chunk brief).summary_id, 1)
      ∷ ((leaf_row hashes mixed_chunk brief).summary_id, 3)
      ∷ [];
}

mixed_written : write_leaf_summary hashes mixed_chunk brief (store_of mixed) ≡ ok leaf_written
unfolding write_leaf_summary
mixed_written = refl

-- The five messages of the old summary are lost: two are covered of the seven in the range.
last_is_two :
    last_of 0 (2 ∷ [])
    ≡ last_ordinal
        (message_at 0 (codes "assistant"))
        (summary_at 1 ∷ message_at 2 (codes "assistant") ∷ [])
unfolding last_of last_ordinal
last_is_two = refl

write_leaf_summary-covered_example :
    sum_of covered leaf_written.items
      + sum_of covered
          (message_at 0 (codes "assistant") ∷ summary_at 1 ∷ message_at 2 (codes "assistant") ∷ [])
    ≡ sum_of covered mixed + 2
write_leaf_summary-covered_example =
    write_leaf_summary-covered hashes (chunk_row_at 0) (chunk_row_at 2 ∷ []) brief (store_of mixed)
      leaf_written [] (message_at 0 (codes "assistant"))
      (summary_at 1 ∷ message_at 2 (codes "assistant") ∷ []) (message_at 3 (codes "user") ∷ []) refl
      refl last_is_two (omega arith) mixed-Ascending mixed_written

abbrev summaries_only : List Item
summaries_only = summary_at 0 ∷ summary_at 1 ∷ message_at 2 (codes "user") ∷ []

abbrev condensed_at : ℕ → CondensedRow
condensed_at n = record { ordinal = n; row = old_summary n }

abbrev two_summaries : CondensedChunk
two_summaries = record { rows = condensed_at 0 ∷ condensed_at 1 ∷ []; depth = 0 }

found_two : load_condensed_chunks tiny summaries_only ≡ two_summaries ∷ []
unfolding load_condensed_chunks
found_two = refl

load_condensed_chunks-Splits_example :
    Splits tiny summaries_only (load_condensed_chunks tiny summaries_only)
load_condensed_chunks-Splits_example = load_condensed_chunks-Splits tiny summaries_only

abbrev condensed_written : Store
condensed_written = record (store_of summaries_only) {
  items =
      record { ordinal = 0; entry = summary (summary_row hashes two_summaries brief) }
      ∷ message_at 2 (codes "user")
      ∷ [];
  summaries = summary_row hashes two_summaries brief ∷ [];
  summary_parents =
      (codes "0", (summary_row hashes two_summaries brief).summary_id)
      ∷ (codes "1", (summary_row hashes two_summaries brief).summary_id)
      ∷ [];
}

two_written :
    write_condensed_summary hashes two_summaries brief (store_of summaries_only)
    ≡ ok condensed_written
unfolding write_condensed_summary
two_written = refl

summaries-Span : Span 0 summaries_only 3
unfolding Span
summaries-Span = (omega arith, (omega arith, (omega arith, omega arith)))

two_run : summaries_only ≡ map item_of two_summaries.rows ++ message_at 2 (codes "user") ∷ []
unfolding item_of
two_run = refl

write_condensed_summary-Collapsed_example : Collapsed 1 summaries_only condensed_written.items
write_condensed_summary-Collapsed_example =
    write_condensed_summary-Collapsed hashes two_summaries brief (condensed_at 0)
      (condensed_at 1 ∷ []) refl (store_of summaries_only) condensed_written 0 3 []
      (message_at 2 (codes "user") ∷ []) two_run (omega arith) summaries-Span two_written
