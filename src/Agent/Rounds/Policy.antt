-- ===== src/Agent/Rounds/Policy.antt =====
-- agent/mod.rs: the policy strikes of a round: which calls were blocked, by which rules, and the
-- count of each rule. The rules of a round are a set; here each is listed where it last stands.
use kitaebot.Common.{
  ℕ, ◌+◌, Bool, false, ◌||◌, List, [], ◌∷◌, ◌++◌, any, Text, codes, ◌=?◌, list_key, nat_key, leb,
  insert, Result, err, if◌then◌else◌,
}
use kitaebot.Types.{ToolCall}
use kitaebot.Agent.Errors.{ToolError, blocked}
use kitaebot.Agent.Strikes.{count_of}

abbrev pub policy_strike_limit : ℕ
policy_strike_limit = 2

abbrev pub policy_round_limit : ℕ
policy_round_limit = 4

-- The reason and the rule of a blocked call.
block_of : Result ToolError Text → List (Text × Text)
block_of (err (blocked operation guidance)) =
    (operation ++ codes " (" ++ guidance ++ codes ")", guidance) ∷ []
block_of _ = []

unfoldable pub blocked_of : List (ToolCall × Result ToolError Text) → List (Text × Text)
unfolding block_of
blocked_of [] = []
blocked_of ((c, r) ∷ rs) = block_of r ++ blocked_of rs

unfoldable pub rules_of : List (Text × Text) → List Text
rules_of [] = []
rules_of ((reason, rule) ∷ bs) =
    if any (λ r. r =? rule) (rules_of bs) then rules_of bs else rule ∷ rules_of bs

unfoldable pub reasons_of : List (Text × Text) → List Text
reasons_of [] = []
reasons_of ((reason, rule) ∷ bs) = reason ∷ reasons_of bs

-- One strike for each rule, and whether a rule reached its limit.
unfoldable pub strike_rules : List Text → List (Text × ℕ) → List (Text × ℕ) × Bool
strike_rules [] strikes = (strikes, false)
strike_rules (rule ∷ rules) strikes =
    let n = count_of rule strikes + 1 in
    let (strikes', over) = strike_rules rules (insert rule n strikes) in
    (strikes', leb policy_strike_limit n || over)

-- The hints of a round, a line each.
unfoldable pub joined : Text → List Text → Text
joined h [] = h
joined h (k ∷ hs) = h ++ codes "\n" ++ joined k hs
