-- ===== src/Lcm/Store/Rows.antt =====
-- context/lcm/migrations: the rows of the tables, and the errors of the store.
use kitaebot.Common.{ℕ, List, Option, Text}

pub data PartType : Type 0 where
  text tool_call tool_output : PartType

pub record Part : Type 0 where
  pub part_type : PartType
  pub ordinal : ℕ
  pub text_content : Option Text
  pub tool_call_id : Option Text
  pub tool_name : Option Text
  pub tool_input : Option Text

pub record MessageRow : Type 0 where
  pub message_id : ℕ
  pub seq : ℕ
  pub role : Text
  pub content : Text
  pub token_count : ℕ
  pub created_at : Text
  pub parts : List Part

pub record SummaryRow : Type 0 where
  pub summary_id : Text
  pub kind : Text
  pub depth : ℕ
  pub content : Text
  pub token_count : ℕ
  pub earliest_at : Text
  pub latest_at : Text
  pub descendant_count : ℕ
  pub descendant_token_count : ℕ
  pub source_message_token_count : ℕ
  pub model : Text

pub data Entry : Type 0 where
  message : MessageRow → Entry
  summary : SummaryRow → Entry

pub record Item : Type 0 where
  pub ordinal : ℕ
  pub entry : Entry

pub record LargeFile : Type 0 where
  pub file_id : Text
  pub path : Text
  pub mime_type : Text
  pub byte_size : ℕ
  pub token_count : ℕ
  pub exploration_summary : Text

-- `last_rowid` is the highest `message_id` given out. A pair of `summary_parents` is a child and the
-- summary that condensed it; the pairs of the other links start with the summary.
pub record Store : Type 0 where
  pub last_rowid : ℕ
  pub messages : List MessageRow
  pub items : List Item
  pub summaries : List SummaryRow
  pub summary_messages : List (Text × ℕ)
  pub summary_parents : List (Text × Text)
  pub summary_files : List (Text × Text)
  pub large_files : List LargeFile

-- A constraint of the schema that a statement breaks, a query without its row, or a damaged row.
pub data EngineError : Type 0 where
  constraint no_row : EngineError
  storage : Text → EngineError
