-- ===== src/Texts/Tests.antt =====
-- A text that is cut in the middle of a character.
use kitaebot.Common.{◌⊎◌, ◌≤◌, ◌<◌, ◌≡◌, [], ◌∷◌, Text, refl}
use kitaebot.Types.{estimate_tokens}
use kitaebot.Texts.{prefix, suffix, floor_char_boundary, next_start, truncate_tool_output}
use kitaebot.Texts.Halves.{Halves, truncate_tool_output-Halves}

-- The bytes of "é", "a" and so on: two-byte characters that stand on both cuts.
abbrev word : Text
word = 97 ∷ 195 ∷ 169 ∷ 97 ∷ 97 ∷ 98 ∷ 195 ∷ 169 ∷ 98 ∷ []

prefix_inside : prefix word 2 ≡ 97 ∷ []
unfolding prefix floor_char_boundary
prefix_inside = refl

suffix_inside : suffix word 2 ≡ 98 ∷ []
unfolding suffix next_start
suffix_inside = refl

truncate_tool_output-Halves_example :
    ((estimate_tokens word ≤ 1) × (truncate_tool_output word 1 ≡ word))
    ⊎ ((1 < estimate_tokens word) × Halves word (truncate_tool_output word 1) 1)
truncate_tool_output-Halves_example = truncate_tool_output-Halves word 1
