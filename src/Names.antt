-- ===== src/Names.antt =====
-- context/names.rs: session names as file names. A text is the list of its bytes.
pub mod Safety
mod Tests
use kitaebot.Common.{ℕ, Bool, true, false, List, [], ◌∷◌, ◌==◌, ◌&&◌, if◌then◌else◌, Text}

-- `replace('\0', "")`.
unfoldable pub without_nul : Text → Text
without_nul [] = []
without_nul (c ∷ s) = if c == 0 then without_nul s else c ∷ without_nul s

-- `replace("..", "")`: from the left, without overlaps.
unfoldable pub without_dots : Text → Text
without_dots [] = []
without_dots (c ∷ []) = c ∷ []
without_dots (c ∷ d ∷ s) =
    if c == b'.' && d == b'.' then without_dots s else c ∷ without_dots (d ∷ s)

-- `replace('/', "--")`.
unfoldable pub dashed : Text → Text
dashed [] = []
dashed (c ∷ s) = if c == b'/' then b'-' ∷ b'-' ∷ dashed s else c ∷ dashed s

unfoldable pub sanitize_name : Text → Text
sanitize_name name = dashed (without_dots (without_nul name))

-- `replace("--", "/")`: from the left, without overlaps.
unfoldable pub desanitize_name : Text → Text
desanitize_name [] = []
desanitize_name (c ∷ []) = c ∷ []
desanitize_name (c ∷ d ∷ s) =
    if c == b'-' && d == b'-' then b'/' ∷ desanitize_name s else c ∷ desanitize_name (d ∷ s)

unfoldable pub display_name : Text → Text
unfolding desanitize_name
display_name session = desanitize_name session
