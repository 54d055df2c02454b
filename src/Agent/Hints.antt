-- ===== src/Agent/Hints.antt =====
-- agent/hints.rs: the corrective hints of a turn. The JSON argument of a call, `arg_str`, is a
-- parameter.
pub mod Once
use kitaebot.Common.{
  ℕ, ◌+◌, Bool, true, false, not, ◌&&◌, ◌||◌, List, [], ◌∷◌, Option, none, some, Text, codes, ◌=?◌,
  list_key, nat_key, insert, leb, any, Result, ok, err, if◌then◌else◌, ◌==◌,
}
use kitaebot.Agent.Strikes.{count_of}

abbrev pub assert_hint : Text
assert_hint =
    codes
      "Hint: a test assertion failed. Derive the expected value by hand from the inputs before changing code: the test's own expectation may be the bug."

abbrev pub rerun_hint : Text
rerun_hint =
    codes
      "Hint: that test command already ran and no file_edit or file_write has happened since; the result will not change. Edit something first or ask a different question."

abbrev pub stale_edit_hint : Text
stale_edit_hint =
    codes
      "Hint: file_edit failed to match twice on that file; your view of it is stale. Re-read the region before retrying."

abbrev pub test_commands : List Text
test_commands =
    codes "cargo test"
    ∷ codes "go test"
    ∷ codes "just check"
    ∷ codes "just rust-check"
    ∷ codes "just test"
    ∷ codes "npm test"
    ∷ codes "pnpm test"
    ∷ codes "pytest"
    ∷ codes "vitest"
    ∷ []

pub data Kind : Type 0 where
  assert rerun stale_edit : Kind

unfoldable pub same_kind : Kind → Kind → Bool
same_kind assert assert = true
same_kind rerun rerun = true
same_kind stale_edit stale_edit = true
same_kind _ _ = false

pub record HintTracker : Type 0 where
  pub fired : List Kind
  pub last_test : Option Text
  pub edited_since_test : Bool
  pub no_match : List (Text × ℕ)

abbrev pub no_hints : HintTracker
no_hints = record { fired = []; last_test = none; edited_since_test = true; no_match = [] }

unfoldable pub starts_with : Text → Text → Bool
starts_with s [] = true
starts_with [] (p ∷ ps) = false
starts_with (c ∷ s) (p ∷ ps) = c == p && starts_with s ps

-- `str::contains`.
unfoldable pub contains : Text → Text → Bool
unfolding starts_with
contains [] p = starts_with [] p
contains (c ∷ s) p = starts_with (c ∷ s) p || contains s p

unfoldable pub assertion_failed : Text → Bool
assertion_failed text =
    (contains text (codes "assertion") && contains text (codes "failed"))
    || contains text (codes "panicked at")

-- The text the first time, and `none` after.
unfoldable pub fire : HintTracker → Kind → Text → HintTracker × Option Text
fire t kind text =
    if any (same_kind kind) t.fired
    then (t, none)
    else (record t { fired = kind ∷ t.fired }, some text)

-- What is left to look at when no earlier shape returned.
unfoldable pub check_text : HintTracker → Text → HintTracker × Option Text
check_text t text = if assertion_failed text then fire t assert assert_hint else (t, none)

unfoldable pub text_of_result : Result Text Text → Text
text_of_result (ok output) = output
text_of_result (err e) = e

unfoldable pub same_command : Option Text → Text → Bool
same_command none command = false
same_command (some c) command = c =? command

module _ (arg_str : Text → Text → Option Text) where
  unfoldable pub path_of : Text → Text
  path_of args = elim (arg_str args (codes "path")) [ none ↦ [] | some p ↦ p ]

  unfoldable pub edit_missed : HintTracker → Text → Text → HintTracker × Option Text
  edit_missed t args e =
      let n = count_of (path_of args) t.no_match + 1 in
      let t' = record t { no_match = insert (path_of args) n t.no_match } in
      if leb 2 n then fire t' stale_edit stale_edit_hint else check_text t' e

  unfoldable pub edited : HintTracker → Text → Text → Result Text Text → HintTracker × Option Text
  unfolding edit_missed
  edited t tool args (ok output) = check_text (record t { edited_since_test = true }) output
  edited t tool args (err e) =
      if tool =? codes "file_edit" && contains e (codes "no match found for old_string")
      then edit_missed t args e
      else check_text t e

  unfoldable pub tested : HintTracker → Text → Text → HintTracker × Option Text
  tested t command text =
      let again = same_command t.last_test command && not t.edited_since_test in
      let t' = record t { last_test = some command; edited_since_test = false } in
      if again then fire t' rerun rerun_hint else check_text t' text

  unfoldable pub executed : HintTracker → Option Text → Text → HintTracker × Option Text
  unfolding tested
  executed t none text = check_text t text
  executed t (some command) text =
      if any (contains command) test_commands then tested t command text else check_text t text

  unfoldable pub observe_hint :
      HintTracker → Text → Text → Result Text Text → HintTracker × Option Text
  unfolding edited executed
  observe_hint t tool args result =
      if tool =? codes "file_edit" || tool =? codes "file_write"
      then edited t tool args result
      else if tool =? codes "exec"
      then executed t (arg_str args (codes "command")) (text_of_result result)
      else check_text t (text_of_result result)
