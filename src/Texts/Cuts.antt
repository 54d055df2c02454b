-- ===== src/Texts/Cuts.antt =====
-- text.rs: where the cuts fall.
use kitaebot.Common.{ℕ, zero, suc, ◌≤◌, Text, length, arith, length-take}
use kitaebot.Texts.{last_start, floor_char_boundary, prefix}

last_start_le : (s : Text) (n : ℕ) → last_start s n ≤ n
unfolding last_start
last_start_le s zero = omega arith
last_start_le s (suc n) = let ih = last_start_le s n in ground arith

pub length-prefix : (s : Text) (n : ℕ) → length (prefix s n) ≤ n
unfolding prefix floor_char_boundary
length-prefix s n =
    ground (arith, length-take (length s) s, length-take (last_start s n) s, last_start_le s n)
