-- ===== src/Names/Tests.antt =====
-- The theorems on session names at work on concrete names.
use kitaebot.Common.{◌≡◌, refl, codes, All, arith}
use kitaebot.Names.{sanitize_name, display_name}
use kitaebot.Names.Safety.{IsPlain, NoDots, sanitize_name-Safe, display_name-sanitize_name}

sanitize_name-Safe_example :
    All IsPlain (sanitize_name (codes "../evil")) × NoDots (sanitize_name (codes "../evil"))
sanitize_name-Safe_example = sanitize_name-Safe (codes "../evil")

sanitize_evil : sanitize_name (codes "a/../b") ≡ codes "a----b"
unfolding sanitize_name kitaebot.Names.dashed kitaebot.Names.without_dots kitaebot.Names.without_nul
sanitize_evil = refl

display_name-sanitize_name_example : display_name (sanitize_name (codes "o/r")) ≡ codes "o/r"
display_name-sanitize_name_example =
    display_name-sanitize_name (codes "o/r") (ground arith) (ground arith) (ground arith)
