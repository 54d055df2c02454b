-- ===== src/Agent/Repeats.antt =====
-- agent/mod.rs: `RepeatDetector`. Arguments are compared as JSON values: parsing them is the
-- section's parameter, and what does not parse is compared as a JSON string.
pub mod Streaks
use kitaebot.Common.{
  ℕ, ◌+◌, ◌≤◌, ◌≡◌, Bool, true, false, List, [], ◌∷◌, map, Option, none, some, Text, ◌=?◌, Key,
  list_key, nat_key, pair_key, leb, if◌then◌else◌,
}
use kitaebot.Types.{ToolCall}

abbrev pub repeat_limit : ℕ
repeat_limit = 3

-- `serde_json::Value` with its equality.
pub record Json : Type 1 where
  pub Value : Type 0
  pub from_str : Text → Option Value
  pub string : Text → Value
  pub value_key : Key Value

module _ (json : Json) where
  open json use {Value, from_str, string, value_key}

  pub record RepeatDetector : Type 0 where
    pub prev : Option (List (Text × Value))
    pub count : ℕ

  abbrev pub new : RepeatDetector
  new = record { prev = none; count = 0 }

  unfoldable pub fingerprint : List ToolCall → List (Text × Value)
  fingerprint [] = []
  fingerprint (c ∷ cs) =
      let args : Value = elim (from_str c.function.arguments) [
        | none ↦ string c.function.arguments
        | some v ↦ v
      ] in
      (c.function.name, args) ∷ fingerprint cs

  unfoldable pub same_prev : Option (List (Text × Value)) → List (Text × Value) → Bool
  same_prev none f = false
  same_prev (some g) f = ◌=?◌ ⦃e = list_key ⦃e = pair_key ⦃f = value_key⦄⦄⦄ g f

  unfoldable pub record_calls : RepeatDetector → List ToolCall → RepeatDetector × Bool
  unfolding same_prev
  record_calls r calls =
      let f = fingerprint calls in
      let n : ℕ = if same_prev r.prev f then r.count + 1 else 1 in
      (record { prev = some f; count = n }, leb repeat_limit n)
