-- ===== src/Lcm/Store.antt =====
-- context/lcm/engine.rs: the store of one conversation, and how a message is put into it, read back
-- and repaired. Every query of the code is limited to one conversation: the lists are its rows,
-- messages in the order of `seq` and context items in that of `ordinal`. Rows of messages and of
-- summaries are never changed once written, so a context item carries the row that its foreign key
-- names. A time is the text that `datetime('now')` gives.
mod Rows
pub mod Ordered
pub mod Roundtrip
pub mod Answered
pub mod Repair
mod Tests
pub use Rows.*
use kitaebot.Common.{
  ℕ, suc, zero, ◌+◌, ◌-◌, ◌^◌, max, Bool, true, false, ◌&&◌, ◌||◌, not, List, [], ◌∷◌, ◌++◌, map,
  Option, none, some, Text, codes, Result, ok, err, ◌>>=◌, ◌=?◌, list_key, nat_key, ltb, leb, ◌==◌,
  keep_if, any, find, decimal, if◌then◌else◌, length, sum_of,
}
use kitaebot.Types.{
  Message, ToolCall, assistant, system, user, tool, tool_calls, content, token_estimate,
  is_valid_tool_name,
}

-- `i64::try_from(n).unwrap_or(i64::MAX)`.
unfoldable pub to_i64 : ℕ → ℕ
to_i64 n = if ltb n (2 ^ 63) then n else 2 ^ 63 - 1

unfoldable pub role_str : Message → Text
role_str (user _) = codes "user"
role_str (assistant _) = codes "assistant"
role_str (tool_calls _ _) = codes "assistant"
role_str (tool _ _) = codes "tool"
role_str (system _) = codes "system"

unfoldable pub text_part : ℕ → Text → Part
text_part ordinal t = record {
  part_type = text;
  ordinal = ordinal;
  text_content = some t;
  tool_call_id = none;
  tool_name = none;
  tool_input = none;
}

unfoldable pub call_parts : ℕ → List ToolCall → List Part
call_parts ordinal [] = []
call_parts ordinal (c ∷ cs) =
    record {
      part_type = tool_call;
      ordinal = ordinal;
      text_content = none;
      tool_call_id = some c.id;
      tool_name = some c.function.name;
      tool_input = some c.function.arguments;
    }
    ∷ call_parts (ordinal + 1) cs

-- The rows that `insert_parts` writes for a message.
unfoldable pub insert_parts : Message → List Part
unfolding text_part call_parts
insert_parts (user t) = text_part 0 t ∷ []
insert_parts (assistant t) = text_part 0 t ∷ []
insert_parts (system t) = text_part 0 t ∷ []
insert_parts (tool call_id t) =
    record {
      part_type = tool_output;
      ordinal = 0;
      text_content = some t;
      tool_call_id = some call_id;
      tool_name = none;
      tool_input = none;
    }
    ∷ []
insert_parts (tool_calls t calls) = text_part 0 t ∷ call_parts 1 calls

-- `COALESCE(MAX(n), -1) + 1`.
unfoldable pub next_of : List ℕ → ℕ
next_of [] = 0
next_of (n ∷ ns) = max (n + 1) (next_of ns)

-- An insert in the order of the primary key, which refuses an ordinal that is taken.
unfoldable pub insert_item : Item → List Item → Result EngineError (List Item)
insert_item i [] = ok (i ∷ [])
insert_item i (j ∷ js) =
    let rest = insert_item i js in
    if ltb i.ordinal j.ordinal
    then ok (i ∷ j ∷ js)
    else if i.ordinal == j.ordinal
    then err constraint
    else rest >>= λ js'. ok (j ∷ js')

unfoldable pub in_range : ℕ → ℕ → Item → Bool
in_range first last i = leb first i.ordinal && leb i.ordinal last

-- `DELETE FROM context_items WHERE ordinal BETWEEN first AND last`.
unfoldable pub delete_between : ℕ → ℕ → List Item → List Item
unfolding in_range
delete_between first last items = keep_if (λ i. not (in_range first last i)) items

-- `INSERT OR IGNORE`: the first row of a file stays.
unfoldable pub add_file : Option LargeFile → List LargeFile → List LargeFile
add_file none files = files
add_file (some f) files = if any (λ g. g.file_id =? f.file_id) files then files else files ++ f ∷ []

unfoldable pub message_row : ℕ → ℕ → Text → Message → MessageRow
unfolding to_i64 role_str insert_parts
message_row id seq now m = record {
  message_id = id;
  seq = seq;
  role = role_str m;
  content = content m;
  token_count = to_i64 (token_estimate m);
  created_at = now;
  parts = insert_parts m;
}

unfoldable pub push_message : Text → Message → Option LargeFile → Store → Result EngineError Store
unfolding message_row next_of add_file
push_message now m large_file s =
    let id = s.last_rowid + 1 in
    let row = message_row id (next_of (map (λ r. r.seq) s.messages)) now m in
    let ordinal = next_of (map (λ i. i.ordinal) s.items) in
    insert_item (record { ordinal = ordinal; entry = message row }) s.items >>= λ items.
    ok (record s {
      last_rowid = id;
      messages = s.messages ++ row ∷ [];
      items = items;
      large_files = add_file large_file s.large_files;
    })

unfoldable pub is_call : Part → Bool
is_call p = elim p.part_type [ tool_call ↦ true | _ ↦ false ]

unfoldable pub is_output : Part → Bool
is_output p = elim p.part_type [ tool_output ↦ true | _ ↦ false ]

-- A text column that must not be NULL.
unfoldable pub column : Option Text → Result EngineError Text
column none = err no_row
column (some t) = ok t

unfoldable pub read_call : ℕ → Part → Result EngineError ToolCall
unfolding column
read_call id p = do
  call_id ← column p.tool_call_id
  name ← column p.tool_name
  arguments ← column p.tool_input
  if is_valid_tool_name name
      then ok (record { id = call_id; function = record { name = name; arguments = arguments } })
      else err (storage (codes "message " ++ decimal id ++ codes ": " ++ name))

unfoldable pub read_calls : ℕ → List Part → Result EngineError (List ToolCall)
unfolding read_call
read_calls id [] = ok []
read_calls id (p ∷ ps) = do c ← read_call id p; cs ← read_calls id ps; ok (c ∷ cs)

unfoldable pub assistant_of : Text → List ToolCall → Message
assistant_of t [] = assistant t
assistant_of t (c ∷ cs) = tool_calls t (c ∷ cs)

unfoldable pub tool_of : Text → Option Part → Result EngineError Message
unfolding column
tool_of t none = err no_row
tool_of t (some p) = column p.tool_call_id >>= λ call_id. ok (tool call_id t)

unfoldable pub reconstruct_message : MessageRow → Result EngineError Message
unfolding tool_of read_calls assistant_of is_call is_output
reconstruct_message r =
    if r.role =? codes "user"
    then ok (user r.content)
    else if r.role =? codes "system"
    then ok (system r.content)
    else if r.role =? codes "tool"
    then tool_of r.content (find is_output r.parts)
    else if r.role =? codes "assistant"
    then read_calls r.message_id (keep_if is_call r.parts)
      >>= (λ cs. ok (assistant_of r.content cs))
    else err (storage (codes "unknown message role: " ++ r.role))

unfoldable pub or_this : {A : Type 0} → Option A → Bool → A → Option A
or_this (some found) here a = some found
or_this none here a = if here then some a else none

-- The message of the newest row that has a tool call, and the rows after it.
unfoldable pub latest_tool_calls : List MessageRow → Option (MessageRow × List MessageRow)
unfolding is_call or_this
latest_tool_calls [] = none
latest_tool_calls (r ∷ rs) = or_this (latest_tool_calls rs) (any is_call r.parts) (r, rs)

unfoldable pub answers : Text → Part → Bool
unfolding is_output
answers call_id p = is_output p && elim p.tool_call_id [ none ↦ false | some i ↦ i =? call_id ]

unfoldable pub has_answer : List MessageRow → Text → Bool
unfolding answers
has_answer later call_id = any (λ r. any (answers call_id) r.parts) later

unfoldable pub call_ids : List Part → List Text
unfolding is_call
call_ids [] = []
call_ids (p ∷ ps) = elim p.tool_call_id [
  | none ↦ call_ids ps
  | some i ↦ if is_call p then i ∷ call_ids ps else call_ids ps
]

unfoldable pub dangling_after : MessageRow × List MessageRow → List Text
unfolding has_answer call_ids
dangling_after (r, later) =
    if any (λ l. not (l.role =? codes "tool")) later
    then []
    else keep_if (λ i. not (has_answer later i)) (call_ids r.parts)

unfoldable pub dangling : Store → List Text
unfolding latest_tool_calls dangling_after
dangling s = elim (latest_tool_calls s.messages) [ none ↦ [] | some found ↦ dangling_after found ]

abbrev pub interrupted_tool_call : Text
interrupted_tool_call = codes "Error: the previous turn ended before this tool call completed."

unfoldable pub push_results : Text → List Text → Store → Result EngineError Store
unfolding push_message
push_results now [] s = ok s
push_results now (i ∷ is) s =
    push_message now (tool i interrupted_tool_call) none s >>= λ s'. push_results now is s'

unfoldable pub repair_dangling_tool_calls : Text → Store → Result EngineError Store
unfolding dangling push_results
repair_dangling_tool_calls now s = push_results now (dangling s) s
