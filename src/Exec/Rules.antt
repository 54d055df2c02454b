-- ===== src/Exec/Rules.antt =====
-- tools/exec.rs: the structural rules of a command, over the words that `shlex` makes of a segment.
use kitaebot.Common.{
  ℕ, ◌-◌, Bool, true, false, not, ◌&&◌, ◌||◌, List, [], ◌∷◌, ◌++◌, Text, codes, decimal, Option,
  none, some, any, leb, ◌==◌, ◌=?◌, list_key, nat_key, if◌then◌else◌,
}

unfoldable pub is_alphabetic : ℕ → Bool
is_alphabetic c = (leb b'a' c && leb c b'z') || (leb b'A' c && leb c b'Z')

-- The characters of a variable's name, but the first.
unfoldable pub is_key_rest : Text → Bool
unfolding is_alphabetic
is_key_rest [] = true
is_key_rest (c ∷ s) = (is_alphabetic c || (leb b'0' c && leb c b'9') || c == b'_') && is_key_rest s

unfoldable pub is_key : Text → Bool
unfolding is_key_rest
is_key [] = false
is_key (c ∷ s) = (is_alphabetic c || c == b'_') && is_key_rest s

-- `split_once('=')`, its first part.
unfoldable pub before_equals : Text → Option Text
before_equals [] = none
before_equals (c ∷ s) = elim (before_equals s) [
  | none ↦ if c == b'=' then some [] else none
  | some key ↦ if c == b'=' then some [] else some (c ∷ key)
]

unfoldable pub is_env_assignment : Text → Bool
unfolding is_key before_equals
is_env_assignment token = elim (before_equals token) [ none ↦ false | some key ↦ is_key key ]

unfoldable pub skip_assignments : List Text → List Text
skip_assignments [] = []
skip_assignments (t ∷ ts) =
    let rest = skip_assignments ts in if is_env_assignment t then rest else t ∷ ts

unfoldable pub has_slash : Text → Bool
has_slash s = any (λ c. c == b'/') s

-- `rsplit('/').next()`: what is behind the last slash.
unfoldable pub file_name : Text → Text
unfolding has_slash
file_name [] = []
file_name (c ∷ s) = let rest = file_name s in if c == b'/' || has_slash s then rest else c ∷ s

unfoldable pub starts_dash : Text → Bool
starts_dash [] = false
starts_dash (c ∷ s) = c == b'-'

unfoldable pub is_positional : Text → Bool
unfolding starts_dash
is_positional t = not (starts_dash t) && not (any (λ c. c == b'=') t)

unfoldable pub subcommand_of : List Text → Option Text
unfolding is_positional
subcommand_of [] = none
subcommand_of (t ∷ ts) = let rest = subcommand_of ts in if is_positional t then some t else rest

pub record CommandDeny : Type 0 where
  pub binary : Text
  pub subcommand : Option Text
  pub guidance : Text

abbrev deny : Text → Option Text → Text → CommandDeny
deny binary subcommand guidance = record {
  binary = binary;
  subcommand = subcommand;
  guidance = guidance;
}

abbrev pub host_power : Text
host_power =
    codes
      "the daemon does not manage the host; report a host problem via notify instead of acting on it"

abbrev pub unprivileged : Text
unprivileged =
    codes
      "the daemon runs as a fixed unprivileged user with no sudo; anything needing root is out of scope, report it instead"

abbrev pub scheduling : Text
scheduling = codes "scheduling is blocked; recurring work belongs to duties, not cron or at"

abbrev pub file_wipe : Text
file_wipe = codes "shred and wipe are blocked; remove the file with rm"

abbrev pub truncate : Text
truncate = codes "truncate is blocked; rewrite the file with file_write"

abbrev pub mount : Text
mount = codes "mounts are blocked; the daemon runs unprivileged"

abbrev pub profile_guidance : Text
profile_guidance =
    codes "profile mutation is blocked; use nix develop or nix-shell for an ephemeral environment"

abbrev pub command_deny_rules : List CommandDeny
command_deny_rules =
    deny (codes "git") (some (codes "clone")) (codes "use the git_clone tool")
    ∷ deny (codes "git") (some (codes "push")) (codes "use the git_push tool")
    ∷ deny (codes "git") (some (codes "fetch")) (codes "use the git_fetch tool")
    ∷ deny (codes "git") (some (codes "commit")) (codes "use the git_commit tool")
    ∷ deny (codes "gh") (some (codes "auth")) (codes "gh auth is not accessible")
    ∷ deny (codes "nix") (some (codes "profile")) profile_guidance
    ∷ deny (codes "at") none scheduling
    ∷ deny (codes "halt") none host_power
    ∷ deny (codes "mount") none mount
    ∷ deny (codes "poweroff") none host_power
    ∷ deny (codes "reboot") none host_power
    ∷ deny (codes "shred") none file_wipe
    ∷ deny (codes "shutdown") none host_power
    ∷ deny (codes "su") none unprivileged
    ∷ deny (codes "truncate") none truncate
    ∷ deny (codes "umount") none mount
    ∷ deny (codes "wipe") none file_wipe
    ∷ []

unfoldable pub same_word : Option Text → Text → Bool
same_word none w = false
same_word (some v) w = v =? w

unfoldable pub rule_applies : Text → Option Text → CommandDeny → Bool
unfolding same_word
rule_applies binary subcommand rule =
    (binary =? rule.binary)
    && (elim rule.subcommand [ none ↦ true | some sub ↦ same_word subcommand sub ])

unfoldable pub first_rule : Text → Option Text → List CommandDeny → Option Text
first_rule binary subcommand [] = none
first_rule binary subcommand (r ∷ rs) =
    let rest = first_rule binary subcommand rs in
    if rule_applies binary subcommand r then some r.guidance else rest

-- Numbers of seconds as the standard library parses, adds, compares and prints them.
pub record Seconds : Type 1 where
  pub F : Type 0
  pub parse : Text → Option F
  pub is_nonneg : F → Bool
  pub scaled : F → ℕ → F
  pub sum : List F → F
  pub exceeds : F → ℕ → Bool
  pub show : F → Text

-- The number and the seconds of its unit.
unfoldable pub unit_of : Text → Text × ℕ
unit_of [] = ([], 1)
unit_of (c ∷ []) =
    if c == b'd'
    then ([], 86400)
    else if c == b'h'
    then ([], 3600)
    else if c == b'm'
    then ([], 60)
    else if c == b's'
    then ([], 1)
    else (c ∷ [], 1)
unit_of (c ∷ d ∷ s) = let (number, scale) = unit_of (d ∷ s) in (c ∷ number, scale)

abbrev pub sleep_headroom : ℕ
sleep_headroom = 30

module _ (f : Seconds) where
  open f use {F, parse, is_nonneg, scaled, sum, exceeds, show}

  unfoldable pub scaled_if : ℕ → Option F → Option F
  scaled_if scale none = none
  scaled_if scale (some secs) = if is_nonneg secs then some (scaled secs scale) else none

  unfoldable pub sleep_arg_secs : Text → Option F
  unfolding unit_of scaled_if
  sleep_arg_secs arg = let (number, scale) = unit_of arg in scaled_if scale (parse number)

  unfoldable pub cons_if : Option F → Option (List F) → Option (List F)
  cons_if none rest = none
  cons_if (some s) none = none
  cons_if (some s) (some ss) = some (s ∷ ss)

  unfoldable pub all_secs : List Text → Option (List F)
  unfolding sleep_arg_secs cons_if
  all_secs [] = some []
  all_secs (a ∷ as') =
      let rest = all_secs as' in if starts_dash a then rest else cons_if (sleep_arg_secs a) rest

  unfoldable pub sleep_secs : List Text → Option F
  unfolding all_secs
  sleep_secs args = elim (all_secs args) [ none ↦ none | some ss ↦ some (sum ss) ]

  unfoldable pub sleep_over_budget : F → ℕ → Text
  sleep_over_budget secs budget =
      codes "sleep "
      ++ show secs
      ++ codes "s cannot finish inside the "
      ++ decimal budget
      ++ codes "s exec budget; poll in intervals of at most "
      ++ decimal (budget - sleep_headroom)
      ++ codes "s and re-check between calls, or use github_ci_status to wait on CI"

  unfoldable pub overslept : ℕ → Option F → Option Text
  unfolding sleep_over_budget
  overslept budget none = none
  overslept budget (some secs) =
      if exceeds secs (budget - sleep_headroom) then some (sleep_over_budget secs budget) else none

  unfoldable pub sleep_refusal : ℕ → Text → List Text → Option Text
  unfolding overslept sleep_secs
  sleep_refusal budget binary args =
      if binary =? codes "sleep" then overslept budget (sleep_secs args) else none

  unfoldable pub or_rule : Text → List Text → Option Text → Option Text
  unfolding first_rule subcommand_of
  or_rule binary args (some guidance) = some guidance
  or_rule binary args none = first_rule binary (subcommand_of args) command_deny_rules

  -- What is wrong with one segment, whose assignments are skipped.
  unfoldable pub words_refusal : ℕ → List Text → Option Text
  unfolding file_name sleep_refusal or_rule
  words_refusal budget [] = none
  words_refusal budget (binary ∷ args) =
      or_rule (file_name binary) args (sleep_refusal budget (file_name binary) args)
