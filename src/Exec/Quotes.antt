-- ===== src/Exec/Quotes.antt =====
-- tools/exec.rs: the scans of a command that keep track of its quotes. They look for ASCII
-- characters only, so they go over the bytes.
use kitaebot.Common.{
  ℕ, Bool, true, false, ◌&&◌, ◌||◌, List, [], ◌∷◌, ◌++◌, Text, Option, none, some, ◌==◌,
  if◌then◌else◌,
}

pub data QuoteState : Type 0 where
  double single unquoted : QuoteState

-- The arms that all three scans share: the quote state behind a character, and whether the
-- character escapes the next one. `none` where no such arm fits.
unfoldable pub turn : QuoteState → ℕ → Option (QuoteState × Bool)
turn double c =
    if c == b'"' then some (unquoted, false) else if c == b'\\' then some (double, true) else none
turn single c = if c == b'\'' then some (unquoted, false) else none
turn unquoted c =
    if c == b'\\'
    then some (unquoted, true)
    else if c == b'"'
    then some (double, false)
    else if c == b'\''
    then some (single, false)
    else none

unfoldable pub is_separator : ℕ → Bool
is_separator c = c == b'|' || c == b';' || c == b'&' || c == 10

unfoldable pub is_bare : QuoteState → Bool
is_bare unquoted = true
is_bare double = false
is_bare single = false

unfoldable pub split_from : Text → QuoteState → Bool → Text → List Text
split_from current state escaped [] = current ∷ []
split_from current state true (c ∷ s) = split_from (current ++ c ∷ []) state false s
split_from current state false (c ∷ s) = elim (turn state c) [
  | some (state', escaped) ↦ split_from (current ++ c ∷ []) state' escaped s
  | none ↦ elim (is_bare state && is_separator c) [
    | true ↦ current ∷ split_from [] state false s
    | false ↦ split_from (current ++ c ∷ []) state false s
  ]
]

unfoldable pub split_unquoted_separators : Text → List Text
unfolding split_from
split_unquoted_separators cmd = split_from [] unquoted false cmd

unfoldable pub is_redirect : ℕ → Bool
is_redirect c = c == b'<' || c == b'>'

unfoldable pub redirects_from : QuoteState → Bool → Text → Bool
redirects_from state escaped [] = false
redirects_from state true (c ∷ s) = redirects_from state false s
redirects_from state false (c ∷ s) = elim (turn state c) [
  | some (state', escaped) ↦ redirects_from state' escaped s
  | none ↦ elim (is_bare state && is_redirect c) [
    | true ↦ true
    | false ↦ redirects_from state false s
  ]
]

unfoldable pub has_unquoted_redirection : Text → Bool
unfolding redirects_from
has_unquoted_redirection cmd = redirects_from unquoted false cmd

starts_bar : Text → Bool
starts_bar [] = false
starts_bar (c ∷ s) = c == b'|'

unfoldable pub ends_segment : ℕ → Bool
ends_segment c = c == b';' || c == b'&' || c == 10

-- `current` is the command from `start` on, and `skip` is the second bar of two.
unfoldable pub piped_from : (Text → Bool) → Text → Bool → QuoteState → Bool → Text → Bool
unfolding starts_bar
piped_from is_test current skip state escaped [] = false
piped_from is_test current true state escaped (c ∷ s) = piped_from is_test [] false state escaped s
piped_from is_test current false state true (c ∷ s) =
    piped_from is_test (current ++ c ∷ []) false state false s
piped_from is_test current false state false (c ∷ s) = elim (turn state c) [
  | some (state', escaped) ↦ piped_from is_test (current ++ c ∷ []) false state' escaped s
  | none ↦ elim (is_bare state && c == b'|') [
    | true ↦ elim (starts_bar s) [
      | true ↦ piped_from is_test [] true state false s
      | false ↦ is_test current || piped_from is_test [] false state false s
    ]
    | false ↦ elim (is_bare state && ends_segment c) [
      | true ↦ piped_from is_test [] false state false s
      | false ↦ piped_from is_test (current ++ c ∷ []) false state false s
    ]
  ]
]
