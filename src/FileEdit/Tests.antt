-- ===== src/FileEdit/Tests.antt =====
-- The file edits at work: an edit whose only match is a loose one in the middle of a file.
use kitaebot.Common.{◌≡◌, ◌≤◌, ◌+◌, refl, false, [], ◌∷◌, none, some, Text, codes, ok, arith}
use kitaebot.Texts.Utf8.{missing}
use kitaebot.FileEdit.{Args, Outside, execute, splice}
use kitaebot.FileEdit.Lines.{strip_trailing}
use kitaebot.FileEdit.Matching.{
  fuzzy, find_matches, window_spans, starts_with, window_fits, window_len,
}
use kitaebot.FileEdit.History.{no_edits, record_futile}
use kitaebot.FileEdit.History.Kept.{attempted, changed, history_after, history_after-Kept, Kept}
use kitaebot.FileEdit.History.Loops.{again, record_futile-again}
use kitaebot.FileEdit.Windows.{NoReturns}
use kitaebot.FileEdit.Verdicts.{Verdict}
use kitaebot.FileEdit.Executions.{execute-Verdict}

abbrev file : Text
file = codes "a();  \nb();\nend\n"

abbrev old_text : Text
old_text = codes "a();\nb();"

no_returns : NoReturns file
no_returns = ground arith

abbrev args : Args
args = record {
  path = codes "f";
  old_string = old_text;
  new_string = codes "x";
  replace_all = false;
}

abbrev disk : Outside
disk = record {
  resolve_writable = λ path. ok path;
  read_to_string = λ path. ok file;
  write_failure = λ path text. none;
  fingerprint = λ args. 7;
}

loose_match :
    find_matches file old_text
    ≡ some (fuzzy (codes "trailing-whitespace-insensitive"), record { start = 0; len = 12 } ∷ [])
unfolding find_matches starts_with window_fits window_spans strip_trailing window_len
loose_match = refl

-- The newline behind the match is lost: "x" and "end" are joined.
joined_lines : splice file 0 12 (codes "x") ≡ some (codes "xend\n")
unfolding splice
joined_lines = refl

-- In a file with carriage returns the second line starts at byte 4, and its window at byte 3.
crlf_window :
    window_spans strip_trailing (codes "ab\r\ncd  \r\n") (codes "cd")
    ≡ record { start = 3; len = 4 } ∷ []
unfolding window_spans strip_trailing window_fits window_len
crlf_window = refl

execute-Verdict_example :
    Verdict args (codes "f") file (execute disk args no_edits).1 (execute disk args no_edits).2
unfolding missing
execute-Verdict_example =
    execute-Verdict disk args (codes "f") file no_edits (λ e. cc) (λ e. cc) refl refl no_returns
      refl refl refl

history_after-Kept_example :
    Kept (history_after (changed (codes "f") ∷ attempted (codes "f") 7 ∷ []))
history_after-Kept_example = history_after-Kept (changed (codes "f") ∷ attempted (codes "f") 7 ∷ [])

record_futile-again_example :
    2 + 1 ≤ (record_futile (codes "f") 7 (again 2 (codes "f") 7 no_edits)).1
record_futile-again_example = record_futile-again (codes "f") 7 2 no_edits (omega arith)
