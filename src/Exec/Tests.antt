-- ===== src/Exec/Tests.antt =====
-- The rules at work on a push behind an assignment, and on one that they do not see.
use kitaebot.Common.{
  ◌++◌, ℕ, ◌≡◌, inl, inr, arith, refl, true, List, [], ◌∷◌, Text, codes, none, some, ltb, any, ◌==◌,
  if◌then◌else◌,
}
use kitaebot.Exec.{Matchers, blocked_reason}
use kitaebot.Exec.Quotes.{
  split_unquoted_separators, has_unquoted_redirection, turn, is_bare, is_separator, is_redirect,
  ends_segment,
}
use kitaebot.Exec.Rules.{Seconds, skip_assignments, is_env_assignment, rule_applies}
use kitaebot.Exec.Permits.{Assignment}
use kitaebot.Exec.Pieces.{
  bare, escape, doubled, singled, plain, command_text, segments, redirects, scans-pieces,
}

-- Words between single spaces.
words : Text → Text → List Text
words w [] = w ∷ []
words w (c ∷ s) = let more = words [] s in if c == 32 then w ∷ more else words (w ++ c ∷ []) s

abbrev whole_seconds : Seconds
whole_seconds = record {
  F = ℕ;
  parse = λ t. none;
  is_nonneg = λ n. true;
  scaled = λ n k. n;
  sum = λ ns. 0;
  exceeds = λ n k. ltb k n;
  show = λ n. [];
}

-- Words without quotes, and no regular expression that matches.
abbrev matchers : Matchers
matchers = record {
  split = λ t. some (words [] t);
  sanitize = λ t. t;
  denied = λ t. none;
  seconds = whole_seconds;
}

assigned_push :
    blocked_reason matchers (codes "A=1 /usr/bin/git -q push") 60
    ≡ some (codes "use the git_push tool")
unfolding blocked_reason words split_unquoted_separators has_unquoted_redirection turn is_bare
    is_separator skip_assignments is_env_assignment is_redirect ends_segment rule_applies
assigned_push = refl

-- The value of -C is taken for the subcommand.
hidden_push : blocked_reason matchers (codes "git -C dir push") 60 ≡ none
unfolding blocked_reason words split_unquoted_separators has_unquoted_redirection turn is_bare
    is_separator skip_assignments is_env_assignment is_redirect ends_segment rule_applies
hidden_push = refl

abbrev assignment : Assignment (codes "A=1")
assignment = record {
  first = b'A';
  name = [];
  value = codes "1";
  split = refl;
  letter = inr (inl (omega arith, omega arith));
  letters = tt;
}

abbrev push_words : List Text
push_words = codes "A=1" ∷ codes "/usr/bin/git" ∷ codes "-q" ∷ codes "push" ∷ []

abbrev pieces : List kitaebot.Exec.Pieces.Piece
pieces = bare b'a' ∷ doubled (plain b'|' ∷ []) ∷ bare b';' ∷ singled (codes ">") ∷ escape b'>' ∷ []

scans-pieces_example :
    (split_unquoted_separators (command_text pieces) ≡ segments [] pieces)
    × (has_unquoted_redirection (command_text pieces) ≡ any redirects pieces)
scans-pieces_example =
    scans-pieces pieces
      ((refl, refl, refl), (((refl, refl), tt), ((refl, refl, refl), ((refl, tt), (tt, tt)))))
