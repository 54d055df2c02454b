-- ===== src/Exec.antt =====
-- tools/exec.rs: which commands are refused, and why.
pub mod Quotes
pub mod Rules
pub mod Permits
pub mod Pieces
mod Tests
use kitaebot.Common.{
  ℕ, Bool, true, false, not, ◌&&◌, ◌||◌, List, [], ◌∷◌, Text, codes, Option, none, some, any, ◌==◌,
  ◌=?◌, list_key, nat_key, if◌then◌else◌,
}
use kitaebot.Exec.Quotes.{unquoted, split_unquoted_separators, has_unquoted_redirection, piped_from}
use kitaebot.Exec.Rules.{
  Seconds, is_env_assignment, skip_assignments, file_name, subcommand_of, words_refusal,
}

-- `shlex::split`; the blanking of sanctioned references, which are matches of regular expressions;
-- the guidance of the first regular expression of the deny list that matches.
pub record Matchers : Type 1 where
  pub split : Text → Option (List Text)
  pub sanitize : Text → Text
  pub denied : Text → Option Text
  pub seconds : Seconds

unfoldable pub starts_text : Text → Text → Bool
starts_text [] s = true
starts_text (c ∷ p) [] = false
starts_text (c ∷ p) (d ∷ s) = c == d && starts_text p s

abbrev pub piped_test : Text
piped_test =
    codes
      "test output must reach exec intact; rerun the test command without a pipe so its full output can be parsed"

abbrev pub preprocessor_guidance : Text
preprocessor_guidance = codes "ripgrep preprocessors are blocked; search converted text instead"

-- The last component of the first word that is no assignment.
unfoldable pub binary_of : List Text → Option Text
unfolding file_name
binary_of [] = none
binary_of (t ∷ ts) = some (file_name t)

unfoldable pub is_word : Text → Option Text → Bool
is_word w none = false
is_word w (some v) = v =? w

unfoldable pub is_test : Text → Option Text → Bool
unfolding starts_text
is_test binary none = false
is_test binary (some sub) =
    (binary =? codes "cargo" && (sub =? codes "test"))
    || (binary =? codes "just" && starts_text (codes "test") sub)

unfoldable pub tests_words : List Text → Bool
unfolding is_test subcommand_of
tests_words [] = false
tests_words (binary ∷ args) = is_test (file_name binary) (subcommand_of args)

unfoldable pub is_preprocessor : Text → Bool
unfolding starts_text
is_preprocessor token = (token =? codes "--pre") || starts_text (codes "--pre=") token

unfoldable pub preprocesses : List Text → Bool
unfolding is_preprocessor
preprocesses [] = false
preprocesses (binary ∷ args) = file_name binary =? codes "rg" && any is_preprocessor args

unfoldable pub searches : List Text → Bool
unfolding binary_of is_word
searches words = is_word (codes "grep") (binary_of words) || is_word (codes "rg") (binary_of words)

unfoldable pub expands : Text → Bool
expands cmd = any (λ c. c == b'$' || c == 96) cmd

unfoldable pub or_later : Option Text → Option Text → Option Text
or_later (some guidance) later = some guidance
or_later none later = later

module _ (m : Matchers) where
  open m use {split, sanitize, denied, seconds}

  unfoldable pub words_that : (List Text → Bool) → Text → Bool
  words_that test segment = elim (split segment) [
    | none ↦ false
    | some tokens ↦ test (skip_assignments tokens)
  ]

  unfoldable pub is_test_command : Text → Bool
  unfolding words_that tests_words
  is_test_command segment = words_that tests_words segment

  unfoldable pub piped_test_command : Text → Bool
  unfolding is_test_command piped_from
  piped_test_command cmd = piped_from is_test_command [] false unquoted false cmd

  unfoldable pub ripgrep_preprocessor : Text → Bool
  unfolding words_that preprocesses
  ripgrep_preprocessor cmd = any (words_that preprocesses) (split_unquoted_separators cmd)

  unfoldable pub inert_search : Text → Bool
  unfolding words_that searches expands
  inert_search cmd =
      (split_unquoted_separators cmd =? (cmd ∷ []))
      && not (has_unquoted_redirection cmd)
      && not (expands cmd)
      && words_that searches cmd

  unfoldable pub segment_refusal : ℕ → Text → Option Text
  unfolding words_refusal
  segment_refusal budget segment = elim (split segment) [
    | none ↦ some (codes "unparseable shell syntax")
    | some tokens ↦ words_refusal seconds budget (skip_assignments tokens)
  ]

  unfoldable pub segments_refusal : ℕ → List Text → Option Text
  unfolding segment_refusal or_later
  segments_refusal budget [] = none
  segments_refusal budget (s ∷ ss) =
      or_later (segment_refusal budget s) (segments_refusal budget ss)

  unfoldable pub command_blocked : Text → ℕ → Option Text
  unfolding piped_test_command segments_refusal
  command_blocked cmd budget =
      if piped_test_command cmd
      then some piped_test
      else segments_refusal budget (split_unquoted_separators cmd)

  unfoldable pub text_refusal : Text → Option Text
  unfolding inert_search
  text_refusal cmd = if inert_search cmd then none else denied (sanitize cmd)

  unfoldable pub blocked_reason : Text → ℕ → Option Text
  unfolding ripgrep_preprocessor text_refusal or_later command_blocked
  blocked_reason cmd budget =
      if ripgrep_preprocessor cmd
      then some preprocessor_guidance
      else or_later (text_refusal cmd) (command_blocked cmd budget)
