-- ===== src/FileEdit/Messages.antt =====
-- tools/file_edit.rs: what the tool shows of a file, and the texts of its refusals; of tools/mod.rs
-- `truncate_output`.
use kitaebot.Common.{
  ℕ, zero, suc, ◌+◌, ◌-◌, min, max, not, ◌||◌, List, [], ◌∷◌, ◌++◌, map, Text, Option, none, some,
  codes, decimal, length, take, drop, any, keep_if, ltb, leb, ◌==◌, ◌=?◌, list_key, nat_key,
  if◌then◌else◌,
}
use kitaebot.Texts.{prefix}
use kitaebot.FileEdit.Lines.{lines, normalize_line, join}
use kitaebot.FileEdit.Matching.{Rung, exact, fuzzy, name, Span}

-- `memchr_iter(b'\n', …).count()`.
unfoldable pub newlines : Text → ℕ
newlines [] = 0
newlines (b ∷ s) = if b == 10 then suc (newlines s) else newlines s

unfoldable pub line_of : Text → ℕ → ℕ
unfolding newlines
line_of content pos = newlines (take pos content) + 1

unfoldable pub number_lines : ℕ → List Text → Text
number_lines i [] = []
number_lines i (l ∷ ls) = decimal i ++ (9 ∷ l) ++ (10 ∷ number_lines (i + 1) ls)

-- `to - from + 1` wraps to 0 where there are no lines, as in a build without overflow checks.
unfoldable pub numbered_lines : Text → ℕ → ℕ → Text
unfolding lines number_lines
numbered_lines content from to =
    let to' = min to (length (lines content)) in
    number_lines from (take (to' + 1 - from) (drop (from - 1) (lines content)))

abbrev pub context_lines : ℕ
context_lines = 3

unfoldable pub last_line : Text → ℕ → ℕ → ℕ
unfolding line_of
last_line content start zero = line_of content start
last_line content start (suc len) = line_of content (start + len)

unfoldable pub echo_region : Text → ℕ → ℕ → Text
unfolding line_of last_line numbered_lines
echo_region content start len =
    numbered_lines content (max (line_of content start - context_lines) 1)
      (last_line content start len + context_lines)

unfoldable pub excerpt_around : Text → ℕ → Text
unfolding numbered_lines lines
excerpt_around content center =
    let total = length (lines content) in
    let from = max (center - context_lines) 1 in
    let to = min (center + context_lines) total in
    (if ltb 1 from || ltb to total
      then codes "[showing lines "
        ++ decimal from
        ++ codes "-"
        ++ decimal to
        ++ codes " of "
        ++ decimal total
        ++ codes "]\n"
      else [])
    ++ numbered_lines content from to

unfoldable pub truncate_output : Text → ℕ → Text
unfolding prefix
truncate_output s max_bytes =
    let kept = prefix s max_bytes in
    if leb (length s) max_bytes
    then s
    else kept ++ codes "...\n[truncated " ++ decimal (length s - length kept) ++ codes " bytes]"

-- `split(' ')`.
unfoldable pub split_spaces : Text → List Text
split_spaces [] = [] ∷ []
split_spaces (b ∷ s) = elim (split_spaces s) [
  | [] ↦ (b ∷ []) ∷ []
  | w ∷ ws ↦ if b == 32 then [] ∷ w ∷ ws else (b ∷ w) ∷ ws
]

-- A `HashSet` as the list of its entries.
unfoldable pub distinct : List Text → List Text
distinct [] = []
distinct (w ∷ ws) = let rest = distinct ws in if any (λ v. v =? w) ws then rest else w ∷ rest

unfoldable pub tokens_of : Text → List Text
unfolding normalize_line split_spaces distinct
tokens_of old = distinct (keep_if (λ t. not (t =? [])) (split_spaces (normalize_line old)))

unfoldable pub overlap : List Text → Text → ℕ
unfolding normalize_line split_spaces
overlap needle line =
    length (keep_if (λ t. any (λ w. w =? t) (split_spaces (normalize_line line))) needle)

-- The earliest of the lines with the greatest overlap, and that overlap, where the best so far is
-- given.
unfoldable pub best_line : List Text → ℕ → List Text → ℕ × ℕ → ℕ × ℕ
unfolding overlap
best_line needle i [] best = best
best_line needle i (l ∷ ls) (at, most) =
    best_line needle (i + 1) ls
      (if ltb most (overlap needle l) then (i, overlap needle l) else (at, most))

unfoldable pub nearest_of : List Text → List Text → Option ℕ
unfolding best_line
nearest_of needle [] = none
nearest_of needle (l ∷ ls) =
    let (at, most) = best_line needle 1 ls (0, overlap needle l) in
    some (if ltb 0 most then at + 1 else 1)

unfoldable pub nearest_line : Text → Text → Option ℕ
unfolding nearest_of tokens_of lines
nearest_line content old = nearest_of (tokens_of old) (lines content)

abbrev pub snapshot_max_bytes : ℕ
snapshot_max_bytes = 2048

unfoldable pub excerpt_of : Text → Option ℕ → Text
unfolding excerpt_around
excerpt_of content none = codes "(" ++ decimal (length content) ++ codes " bytes, no lines)"
excerpt_of content (some line) = excerpt_around content line

unfoldable pub stale_read_message : Text → Text → Text → Text
unfolding excerpt_of nearest_line truncate_output
stale_read_message content old path =
    codes "no match found for old_string in "
    ++ path
    ++ codes "; the file may have changed since you read it. Nearest candidate:\n"
    ++ truncate_output (excerpt_of content (nearest_line content old)) snapshot_max_bytes

unfoldable pub suggestion : Rung → Text
suggestion exact = codes "add surrounding context to make it unique, or set replace_all"
suggestion (fuzzy n) = codes "add surrounding context to make it unique"

unfoldable pub ambiguous_message : Rung → List Span → Text → Text → Text
unfolding line_of join suggestion name
ambiguous_message rung spans content path =
    decimal (length spans)
    ++ codes " matches for old_string in "
    ++ path
    ++ codes " at lines "
    ++ join (codes ", ") (map (λ s. decimal (line_of content s.start)) spans)
    ++ codes " ("
    ++ name rung
    ++ codes " match); "
    ++ suggestion rung
