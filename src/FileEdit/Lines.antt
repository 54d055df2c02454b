-- ===== src/FileEdit/Lines.antt =====
-- tools/file_edit.rs: lines, words and the normalizers of a line, and of the standard library what
-- they are made of. A text is the list of its UTF-8 bytes.
use kitaebot.Common.{
  ℕ, zero, suc, Bool, true, false, ◌&&◌, ◌||◌, List, [], ◌∷◌, ◌++◌, Text, Option, none, some, leb,
  ◌==◌, if◌then◌else◌,
}

unfoldable pub onto_line : ℕ → List Text → List Text
onto_line b [] = (b ∷ []) ∷ []
onto_line b (l ∷ ls) = (b ∷ l) ∷ ls

starts_newline : Text → Bool
starts_newline [] = false
starts_newline (b ∷ s) = b == 10

-- `str::lines`: a line ends with "\n" or "\r\n", and the last one may do without.
unfoldable pub lines : Text → List Text
unfolding onto_line starts_newline
lines [] = []
lines (b ∷ s) =
    let rest = lines s in
    if b == 10 then [] ∷ rest else if b == 13 && starts_newline s then rest else onto_line b rest

white_1 : ℕ → Bool
white_1 a = (leb 9 a && leb a 13) || a == 32

white_2 : ℕ → ℕ → Bool
white_2 a b = a == 194 && (b == 133 || b == 160)

white_3 : ℕ → ℕ → ℕ → Bool
white_3 a b c =
    (a == 225 && b == 154 && c == 128)
    || (a == 226 && b == 128 && ((leb 128 c && leb c 138) || c == 168 || c == 169 || c == 175))
    || (a == 226 && b == 129 && c == 159)
    || (a == 227 && b == 128 && c == 128)

-- `char::is_whitespace` of the character that starts the text: its bytes, or 0.
unfoldable pub white : Text → ℕ
unfolding white_1 white_2 white_3
white [] = 0
white (a ∷ []) = if white_1 a then 1 else 0
white (a ∷ b ∷ []) = if white_1 a then 1 else if white_2 a b then 2 else 0
white (a ∷ b ∷ c ∷ s) =
    if white_1 a then 1 else if white_2 a b then 2 else if white_3 a b c then 3 else 0

-- Whether nothing but white space is left behind the next `skip` bytes.
unfoldable pub is_blank : ℕ → Text → Bool
unfolding white
is_blank skip [] = true
is_blank (suc skip) (b ∷ s) = is_blank skip s
is_blank zero (b ∷ s) = elim (white (b ∷ s)) [ zero ↦ false | suc n ↦ is_blank n s ]

-- `strip_trailing`, by `str::trim_end`.
unfoldable pub strip_trailing : Text → Text
unfolding is_blank
strip_trailing [] = []
strip_trailing (b ∷ s) = let rest = strip_trailing s in if is_blank 0 (b ∷ s) then [] else b ∷ rest

flush_word : Text → List Text → List Text
flush_word [] ws = ws
flush_word (b ∷ w) ws = (b ∷ w) ∷ ws

-- The words behind the next `skip` bytes, where `word` is the one that has begun.
words_from : ℕ → Text → Text → List Text
unfolding white flush_word
words_from skip word [] = flush_word word []
words_from (suc skip) word (b ∷ s) = words_from skip word s
words_from zero word (b ∷ s) = elim (white (b ∷ s)) [
  | zero ↦ words_from zero (word ++ b ∷ []) s
  | suc n ↦ flush_word word (words_from n [] s)
]

unfoldable pub split_whitespace : Text → List Text
unfolding words_from
split_whitespace s = words_from 0 [] s

unfoldable pub join : Text → List Text → Text
join sep [] = []
join sep (w ∷ []) = w
join sep (w ∷ v ∷ ws) = w ++ (sep ++ join sep (v ∷ ws))

unfoldable pub normalize_line : Text → Text
unfolding split_whitespace join
normalize_line s = join (32 ∷ []) (split_whitespace s)

-- The ASCII byte for a typographic character at the start of the text, and its bytes but one.
folded : Text → Option (ℕ × ℕ)
folded [] = none
folded (a ∷ []) = none
folded (a ∷ b ∷ []) = if a == 194 && b == 160 then some (32, 1) else none
folded (a ∷ b ∷ c ∷ s) =
    if a == 194 && b == 160
    then some (32, 1)
    else if a == 226 && b == 128
    then if c == 152 || c == 153
      then some (39, 2)
      else if c == 156 || c == 157
      then some (34, 2)
      else if c == 147 || c == 148
      then some (45, 2)
      else none
    else none

folded_from : ℕ → Text → Text
unfolding folded
folded_from skip [] = []
folded_from (suc skip) (b ∷ s) = folded_from skip s
folded_from zero (b ∷ s) = elim (folded (b ∷ s)) [
  | none ↦ b ∷ folded_from zero s
  | some (ascii, more) ↦ ascii ∷ folded_from more s
]

unfoldable pub fold_unicode : Text → Text
unfolding folded_from
fold_unicode s = folded_from 0 s

unfoldable pub fold_line : Text → Text
unfolding normalize_line fold_unicode
fold_line s = normalize_line (fold_unicode s)
