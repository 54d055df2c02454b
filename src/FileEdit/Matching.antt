-- ===== src/FileEdit/Matching.antt =====
-- tools/file_edit.rs: the ladder of matches.
use kitaebot.Common.{
  ℕ, zero, suc, ◌+◌, ◌-◌, Bool, true, false, ◌&&◌, List, [], ◌∷◌, map, Text, Option, none, some,
  codes, length, ◌=?◌, list_key, nat_key, if◌then◌else◌,
}
use kitaebot.FileEdit.Lines.{lines, strip_trailing, normalize_line, fold_line}

pub record Span : Type 0 where
  pub start : ℕ
  pub len : ℕ

pub data Rung : Type 0 where
  exact : Rung
  fuzzy : Text → Rung

unfoldable pub name : Rung → Text
name exact = codes "exact"
name (fuzzy n) = n

unfoldable pub starts_with : Text → Text → Bool
starts_with [] s = true
starts_with (b ∷ old) [] = false
starts_with (b ∷ old) (c ∷ s) = (b =? c) && starts_with old s

-- `match_indices` of a text that is not empty: from the left, and behind each other.
unfoldable pub match_indices : Text → ℕ → ℕ → Text → List Span
match_indices old pos skip [] = []
match_indices old pos (suc skip) (b ∷ s) = match_indices old (pos + 1) skip s
match_indices old pos zero (b ∷ s) = elim (starts_with old (b ∷ s)) [
  | true ↦ record { start = pos; len = length old } ∷ match_indices old (pos + 1) (length old - 1) s
  | false ↦ match_indices old (pos + 1) zero s
]

-- The bytes of the first lines: one more for each line that another follows.
unfoldable pub window_len : ℕ → List Text → ℕ
window_len zero ls = 0
window_len (suc n) [] = 0
window_len (suc n) (l ∷ []) = length l
window_len (suc n) (l ∷ m ∷ ms) = length l + 1 + window_len n (m ∷ ms)

module _ (normalize : Text → Text) where
  -- Whether the window of the needle's length that starts here is the needle.
  unfoldable pub window_fits : List Text → List Text → Bool
  window_fits [] ls = true
  window_fits (n ∷ ns) [] = false
  window_fits (n ∷ ns) (l ∷ ls) = (normalize l =? n) && window_fits ns ls

  -- The windows that start in these lines, whose first one starts at `offset`.
  unfoldable pub spans_from : ℕ → List Text → List Text → List Span
  spans_from offset needle [] = []
  spans_from offset needle (l ∷ ls) =
      let rest = spans_from (offset + length l + 1) needle ls in
      if window_fits needle (l ∷ ls)
      then record { start = offset; len = window_len (length needle) (l ∷ ls) } ∷ rest
      else rest

  unfoldable pub windows_of : Text → List Text → List Span
  unfolding spans_from
  windows_of content [] = []
  windows_of content (n ∷ ns) = spans_from 0 (n ∷ ns) (lines content)

  unfoldable pub window_spans : Text → Text → List Span
  unfolding windows_of lines
  window_spans content old = windows_of content (map normalize (lines old))

abbrev pub fuzzy_rungs : List (Text × (Text → Text))
fuzzy_rungs =
    (codes "trailing-whitespace-insensitive", strip_trailing)
    ∷ (codes "whitespace-flexible", normalize_line)
    ∷ (codes "unicode-folded", fold_line)
    ∷ []

unfoldable pub first_rung : Rung → List Span → Option (Rung × List Span) → Option (Rung × List Span)
first_rung r [] rest = rest
first_rung r (s ∷ ss) rest = some (r, s ∷ ss)

unfoldable pub climb : Text → Text → List (Text × (Text → Text)) → Option (Rung × List Span)
unfolding first_rung
climb content old [] = none
climb content old ((rung, normalize) ∷ rungs) =
    first_rung (fuzzy rung) (window_spans normalize content old) (climb content old rungs)

unfoldable pub find_matches : Text → Text → Option (Rung × List Span)
unfolding climb match_indices
find_matches content old =
    first_rung exact (match_indices old 0 0 content) (climb content old fuzzy_rungs)
