-- ===== src/Agent/Strikes.antt =====
-- agent/mod.rs: `ToolStrikeTracker` and the notices that it adds to an error's text.
-- `canonical_args`, which sorts the keys of the arguments, is a parameter.
pub mod Counts
use kitaebot.Common.{
  ℕ, ◌+◌, ◌≤◌, ◌≡◌, Bool, true, false, List, [], ◌∷◌, ◌++◌, Option, none, some, Text, codes,
  decimal, ◌=?◌, Key, list_key, nat_key, pair_key, leb, get, insert, if◌then◌else◌,
}
use kitaebot.Agent.Errors.{ToolError, blocked, timeout, error_class}

abbrev pub strike_notice : ℕ
strike_notice = 3

abbrev pub strike_halt : ℕ
strike_halt = 5

-- Tool name, canonical arguments, error class.
abbrev pub Signature : Type 0
Signature = Text × (Text × Text)

abbrev pub Strikes : Type 0
Strikes = List (Signature × ℕ)

-- `entry(key).or_insert(0)`.
abbrev pub count_of {ℓ} : {K : Type ℓ} ⦃e : Key K⦄ → K → List (K × ℕ) → ℕ
count_of k m = elim (get k m) [ none ↦ 0 | some n ↦ n ]

unfoldable pub is_blocked : ToolError → Bool
is_blocked (blocked operation guidance) = true
is_blocked e = false

module _ (canonical_args : Text → Text) where
  unfoldable pub signature : Text → Text → ToolError → Signature
  signature tool args e = (tool, (canonical_args args, error_class e))

  unfoldable pub record_strike : Strikes → Text → Text → ToolError → Strikes × Option ℕ
  unfolding is_blocked
  record_strike strikes tool args e =
      let key = signature tool args e in
      let n = count_of key strikes + 1 in
      if is_blocked e then (strikes, none) else (insert key n strikes, some n)

-- The UTF-8 of an em dash.
abbrev dash : Text
dash = 226 ∷ 128 ∷ 148 ∷ []

unfoldable pub repeated_text : ℕ → Text
repeated_text count =
    codes "\n\nThis exact call has failed "
    ++ decimal count
    ++ codes " times this turn. The failure is deterministic "
    ++ dash
    ++ codes " stop retrying and adapt your approach or report the problem."

unfoldable pub augment_notice : Text → ℕ → Text
unfolding repeated_text
augment_notice content count =
    if leb strike_notice count then content ++ repeated_text count else content

unfoldable pub timeout_base : Text → ℕ → Text
timeout_base command secs =
    codes "Error: `" ++ command ++ codes "` timed out after " ++ decimal secs ++ codes "s"

resumes : Text
resumes =
    codes "\n\nPartial progress persists " ++ dash ++ codes " a retry resumes where this stopped."

stalled : ℕ → Text
stalled count =
    codes "\n\nThis command has timed out "
    ++ decimal count
    ++ codes " times this turn. Partial progress persists "
    ++ dash
    ++ codes
        " a retry resumes where this stopped. But if the underlying store/target mtimes have not advanced, the failure is deterministic: stop retrying and report the problem."

unfoldable pub timeout_notice : Text → ℕ → ℕ → Text
unfolding timeout_base resumes stalled
timeout_notice command secs count =
    timeout_base command secs ++ (if leb strike_notice count then stalled count else resumes)
