-- ===== src/Lcm/Assemble.antt =====
-- context/lcm/engine.rs: the message list that a request starts from, built from the context items.
pub mod Faithful
use kitaebot.Common.{
  ℕ, zero, suc, ◌+◌, max, Bool, true, false, ◌&&◌, ◌||◌, not, List, [], ◌∷◌, ◌++◌, map, Option,
  none, some, Text, codes, decimal, Result, ok, err, ◌>>=◌, ◌=?◌, list_key, nat_key, ltb, leb, ◌==◌,
  keep_if, any, concat, length, if◌then◌else◌,
}
use kitaebot.Types.{Message, system}
use kitaebot.Lcm.Store.{
  Store, Item, Entry, message, summary, MessageRow, SummaryRow, Part, EngineError,
  reconstruct_message, is_call,
}

abbrev pub written_files_cap : ℕ
written_files_cap = 30

abbrev pub written_files_header : Text
written_files_header = codes "## Files Written For This Request"

abbrev pub recall_guidance : Text
recall_guidance =
    codes "## Compacted History\n\n"
    ++ codes "Summaries above are compressed context: maps to details, not the details themselves. "
    ++ codes "Use retrieval tools before asserting specifics from summaries.\n\n"
    ++ codes "Tool escalation:\n1. lcm_grep: search by keyword or regex\n"
    ++ codes "2. lcm_describe: inspect a specific summary's metadata and lineage\n"
    ++ codes "3. lcm_expand: drill into a summary to retrieve children or source messages "
    ++ codes "(sub-agent only)\n\n"
    ++ codes "Do not guess exact values (commands, paths, SHAs, config) from condensed summaries. "
    ++ codes "Use lcm_grep to search, or delegate expansion to a sub-agent."

-- `MAX(seq)` of the user messages.
unfoldable pub newest_user : List MessageRow → Option ℕ
newest_user [] = none
newest_user (r ∷ rs) =
    let rest = newest_user rs in
    if r.role =? codes "user"
    then some (elim rest [ none ↦ r.seq | some n ↦ max r.seq n ])
    else rest

unfoldable pub holds : ℕ → Item → Bool
holds id i = elim i.entry [ message r ↦ r.message_id == id | summary s ↦ false ]

-- A message after the pin that is no context item.
unfoldable pub compacted_after : ℕ → Store → Bool
unfolding holds
compacted_after pin s =
    any (λ r. ltb pin r.seq && not (any (holds r.message_id) s.items)) s.messages

unfoldable pub reversed {ℓ} : {A : Type ℓ} → List A → List A
reversed [] = []
reversed (x ∷ xs) = reversed xs ++ x ∷ []

unfoldable pub writes_file : Part → Bool
unfolding is_call
writes_file p = is_call p && elim p.tool_name [
  | none ↦ false
  | some name ↦ name =? codes "file_write" || name =? codes "file_edit"
]

unfoldable pub input_of : Part → List Text
input_of p = elim p.tool_input [ none ↦ [] | some i ↦ i ∷ [] ]

-- The inputs of the file tools after the pin, newest first.
unfoldable pub written_inputs : ℕ → List MessageRow → List Text
unfolding writes_file input_of reversed
written_inputs pin rows = reversed (
    concat (
      map (λ r. concat (map input_of (keep_if writes_file r.parts)))
        (keep_if (λ r. ltb pin r.seq) rows)))

unfoldable pub is_summary : Item → Bool
is_summary i = elim i.entry [ message r ↦ false | summary s ↦ true ]

unfoldable pub summary_text : SummaryRow → Text
summary_text s =
    codes "<summary id=\""
    ++ s.summary_id
    ++ codes "\" kind=\""
    ++ s.kind
    ++ codes "\" depth=\""
    ++ decimal s.depth
    ++ codes "\" earliest_at=\""
    ++ s.earliest_at
    ++ codes "\" latest_at=\""
    ++ s.latest_at
    ++ codes "\">\n"
    ++ s.content
    ++ codes "\n</summary>"

unfoldable pub item_message : Item → Result EngineError Message
unfolding summary_text reconstruct_message
item_message i = elim i.entry [
  | message r ↦ reconstruct_message r
  | summary s ↦ ok (system (summary_text s))
]

unfoldable pub item_messages : List Item → Result EngineError (List Message)
unfolding item_message
item_messages [] = ok []
item_messages (i ∷ is) = do m ← item_message i; ms ← item_messages is; ok (m ∷ ms)

-- `path_of` is the `path` string of a JSON text, where it has one.
module _ (path_of : Text → Option Text) where
  -- The distinct paths, up to the cap.
  unfoldable pub distinct_paths : List Text → List Text → List Text
  distinct_paths paths [] = paths
  distinct_paths paths (i ∷ is) = elim (path_of i) [
    | none ↦ distinct_paths paths is
    | some p ↦ elim (any (λ q. q =? p) paths) [
      | true ↦ distinct_paths paths is
      | false ↦ elim (length paths + 1 == written_files_cap) [
        | true ↦ paths ++ p ∷ []
        | false ↦ distinct_paths (paths ++ p ∷ []) is
      ]
    ]
  ]

  unfoldable pub lines_of : List Text → Text
  lines_of [] = []
  lines_of (p ∷ []) = p
  lines_of (p ∷ q ∷ qs) = p ++ codes "\n" ++ lines_of (q ∷ qs)

  unfoldable pub listed : List Text → Option Text
  unfolding lines_of
  listed [] = none
  listed (p ∷ ps) = some (written_files_header ++ codes "\n" ++ lines_of (p ∷ ps))

  unfoldable pub written_files_segment : Store → Option Text
  unfolding newest_user compacted_after distinct_paths listed written_inputs
  written_files_segment s = elim (newest_user s.messages) [
    | none ↦ none
    | some pin ↦
        if compacted_after pin s
        then listed (distinct_paths [] (written_inputs pin s.messages))
        else none
  ]

  unfoldable pub system_content : Text → Store → Text
  unfolding is_summary written_files_segment
  system_content system_prompt s =
      if any is_summary s.items
      then system_prompt
        ++ codes "\n\n"
        ++ recall_guidance
        ++ elim (written_files_segment s) [ none ↦ [] | some segment ↦ codes "\n\n" ++ segment ]
      else system_prompt

  unfoldable pub assemble_sync : Text → Store → Result EngineError (List Message)
  unfolding system_content item_messages
  assemble_sync system_prompt s =
      item_messages s.items >>= (λ ms. ok (system (system_content system_prompt s) ∷ ms))
