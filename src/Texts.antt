-- ===== src/Texts.antt =====
-- text.rs: prefixes and suffixes cut on a character boundary, and what context/mod.rs does with them.
-- A text is the list of its UTF-8 bytes.
pub mod Cuts
pub mod Halves
pub mod Utf8
mod Tests
use kitaebot.Types.{estimate_tokens}
use kitaebot.Common.{
  ◌++◌, ◌-◌, ◌*◌, ◌/◌, codes, decimal, ℕ, zero, suc, Bool, true, false, ◌&&◌, not, List, [], ◌∷◌,
  Text, length, take, drop, leb, if◌then◌else◌,
}

-- A byte that goes on with a character: 10xxxxxx.
unfoldable pub goes_on : ℕ → Bool
goes_on b = leb 128 b && leb b 191

-- `str::is_char_boundary`.
unfoldable pub starts_char : Text → Bool
unfolding goes_on
starts_char [] = true
starts_char (b ∷ s) = not (goes_on b)

-- `str::floor_char_boundary`: the end of the text, or the last place at or before `n` where a
-- character starts.
unfoldable pub last_start : Text → ℕ → ℕ
unfolding starts_char
last_start s zero = zero
last_start s (suc n) =
    let before = last_start s n in if starts_char (drop (suc n) s) then suc n else before

unfoldable pub floor_char_boundary : Text → ℕ → ℕ
unfolding last_start
floor_char_boundary s n = if leb (length s) n then length s else last_start s n

unfoldable pub prefix : Text → ℕ → Text
unfolding floor_char_boundary
prefix s max_bytes = take (floor_char_boundary s max_bytes) s

-- `str::ceil_char_boundary`: the first place at or after `n` where a character starts.
unfoldable pub next_start : Text → ℕ → ℕ
unfolding starts_char
next_start [] n = 0
next_start (b ∷ s) zero =
    let later = next_start s zero in if starts_char (b ∷ s) then 0 else suc later
next_start (b ∷ s) (suc n) = suc (next_start s n)

unfoldable pub suffix : Text → ℕ → Text
unfolding next_start
suffix s max_bytes = drop (next_start s (length s - max_bytes)) s

unfoldable pub truncation_marker : ℕ → Text
truncation_marker omitted = codes "\n... [~" ++ decimal omitted ++ codes " tokens truncated] ...\n"

-- Of context/mod.rs: the head and the tail of a tool's output, with a marker between them.
unfoldable pub truncate_tool_output : Text → ℕ → Text
unfolding prefix suffix truncation_marker
truncate_tool_output content max_tokens =
    let keep = max_tokens * 4 / 2 in
    let head = prefix content keep in
    let tail = suffix content keep in
    let middle = take (length content - length tail - length head) (drop (length head) content) in
    if leb (estimate_tokens content) max_tokens
    then content
    else head ++ (truncation_marker (estimate_tokens middle) ++ tail)
