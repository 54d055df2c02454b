-- ===== src/FileEdit.antt =====
-- tools/file_edit.rs: the tool that finds and replaces a text in a file.
pub mod Lines
pub mod Matching
pub mod History
pub mod Exact
pub mod Splices
pub mod Windows
pub mod Alone
pub mod Rungs
pub mod Verdicts
pub mod Executions
mod Tests
pub mod Messages
use kitaebot.Common.{
  ℕ, ◌+◌, Bool, true, false, ◌&&◌, List, [], ◌∷◌, ◌++◌, Text, Option, none, some, Result, ok, err,
  codes, decimal, length, take, drop, leb, ltb, ◌=?◌, list_key, nat_key, if◌then◌else◌,
}
use kitaebot.Texts.{starts_char}
use kitaebot.Agent.Errors.{ToolError, invalid_arguments, precondition, io, edit_loop}
use kitaebot.FileEdit.Matching.{Span, Rung, exact, fuzzy, find_matches}
use kitaebot.FileEdit.History.{EditHistory, record_futile, clear}
use kitaebot.FileEdit.Messages.{stale_read_message, ambiguous_message, echo_region}

pub record Args : Type 0 where
  pub path : Text
  pub old_string : Text
  pub new_string : Text
  pub replace_all : Bool

-- The path guard, the file system with the failures of its reads and writes, and the standard
-- library's hash of a payload.
pub record Outside : Type 0 where
  pub resolve_writable : Text → Result ToolError Text
  pub read_to_string : Text → Result Text Text
  pub write_failure : Text → Text → Option Text
  pub fingerprint : Args → ℕ

pub data EditFutility : Type 0 where
  failed_identically no_change : EditFutility

unfoldable pub futility_text : EditFutility → Text
futility_text failed_identically = codes "failed identically"
futility_text no_change = codes "produced no change"

pub data Fault : Type 0 where
  panics : Fault
  refused : ToolError → Fault

abbrev pub futile_limit : ℕ
futile_limit = 3

-- `String::replace_range`, which panics off a character boundary.
unfoldable pub splice : Text → ℕ → ℕ → Text → Option Text
unfolding starts_char
splice content pos len replacement =
    if leb (pos + len) (length content)
      && starts_char (drop pos content)
      && starts_char (drop (pos + len) content)
    then some (take pos content ++ (replacement ++ drop (pos + len) content))
    else none

unfoldable pub splice_here : Span → Text → Option Text → Option Text
unfolding splice
splice_here span replacement none = none
splice_here span replacement (some content) = splice content span.start span.len replacement

-- From the last span to the first.
unfoldable pub splice_all : Text → List Span → Text → Option Text
unfolding splice_here
splice_all content [] replacement = some content
splice_all content (s ∷ ss) replacement =
    splice_here s replacement (splice_all content ss replacement)

-- What an execution leaves: the history, the write that was made, and the answer.
abbrev pub Outcome : Type 0
Outcome = EditHistory × Option (Text × Text) × Result Fault Text

unfoldable pub refusal : EditHistory → ToolError → Outcome
refusal h e = (h, none, err (refused e))

-- `FileEdit::record_futile`, and what is returned where it does not fail.
unfoldable pub futile : Args → ℕ → EditFutility → EditHistory → Result Fault Text → Outcome
unfolding record_futile futility_text refusal
futile args fingerprint outcome h answer =
    let (h', attempts) = record_futile args.path fingerprint h in
    if leb futile_limit attempts
    then refusal h' (edit_loop args.path attempts (futility_text outcome))
    else (h', none, answer)

unfoldable pub replacements : ℕ → Text
replacements n = if ltb 1 n then codes " (" ++ decimal n ++ codes " replacements)" else []

unfoldable pub finished : Text → Text → Text → Option Text → Result Fault Text
finished path note echo none = ok (codes "Edited " ++ path ++ note ++ codes ":\n" ++ echo)
finished path note echo (some failure) = err (refused (io (codes "write") path failure))

module _ (o : Outside) where
  open o use {resolve_writable, read_to_string, write_failure, fingerprint}

  -- Behind the splice: an edit that changes nothing is futile; of another the write is attempted, and
  -- is recorded whether it fails or not.
  unfoldable pub spliced : Args → Text → Text → ℕ → ℕ → EditHistory → Option Text → Outcome
  unfolding futile finished replacements echo_region clear
  spliced args resolved content at replaced h none = (h, none, err panics)
  spliced args resolved content at replaced h (some result) =
      let echo = echo_region result at (length args.new_string) in
      if result =? content
      then futile args (fingerprint args) no_change h
          (ok (codes "Edited " ++ args.path ++ codes " (no change):\n" ++ echo))
      else (
        clear args.path h,
        some (resolved, result),
        finished args.path (replacements replaced) echo (write_failure resolved result),
      )

  unfoldable pub ambiguous : Args → Text → Rung → List Span → EditHistory → Outcome
  unfolding futile ambiguous_message
  ambiguous args content rung spans h =
      futile args (fingerprint args) failed_identically h
        (err (refused (precondition (ambiguous_message rung spans content args.path))))

  unfoldable pub stale : Args → Text → EditHistory → Outcome
  unfolding futile stale_read_message
  stale args content h =
      futile args (fingerprint args) failed_identically h
        (err (refused (precondition (stale_read_message content args.old_string args.path))))

  unfoldable pub all_or_none :
      Args → Text → Text → Rung → Span → Span → List Span → EditHistory → Outcome
  unfolding spliced splice_all ambiguous
  all_or_none args resolved content exact s t ss h =
      if args.replace_all
      then spliced args resolved content s.start (length (s ∷ t ∷ ss)) h
          (splice_all content (s ∷ t ∷ ss) args.new_string)
      else ambiguous args content exact (s ∷ t ∷ ss) h
  all_or_none args resolved content (fuzzy n) s t ss h =
      ambiguous args content (fuzzy n) (s ∷ t ∷ ss) h

  unfoldable pub apply : Args → Text → Text → EditHistory → Option (Rung × List Span) → Outcome
  unfolding spliced stale all_or_none splice
  apply args resolved content h none = stale args content h
  apply args resolved content h (some (rung, [])) = ambiguous args content rung [] h
  apply args resolved content h (some (rung, s ∷ [])) =
      spliced args resolved content s.start 1 h (splice content s.start s.len args.new_string)
  apply args resolved content h (some (rung, s ∷ t ∷ ss)) =
      all_or_none args resolved content rung s t ss h

  unfoldable pub edited : Args → Text → EditHistory → Result Text Text → Outcome
  unfolding apply find_matches
  edited args resolved h (err failure) = refusal h (io (codes "read") args.path failure)
  edited args resolved h (ok content) =
      apply args resolved content h (find_matches content args.old_string)

  unfoldable pub resolved_to : Args → EditHistory → Result ToolError Text → Outcome
  unfolding edited
  resolved_to args h (err e) = refusal h e
  resolved_to args h (ok resolved) = edited args resolved h (read_to_string resolved)

  unfoldable pub execute : Args → EditHistory → Outcome
  unfolding resolved_to refusal
  execute args h =
      if args.old_string =? []
      then refusal h (invalid_arguments (codes "old_string must be non-empty"))
      else if args.old_string =? args.new_string
      then refusal h (
          invalid_arguments
            (codes "old_string and new_string are identical; the edit would be a no-op"))
      else resolved_to args h (resolve_writable args.path)
