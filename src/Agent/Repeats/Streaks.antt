-- ===== src/Agent/Repeats/Streaks.antt =====
-- When `RepeatDetector` refuses a set of calls.
use kitaebot.Common.{
  ◌≤◌, ◌≡◌, refl, ◌↔◌, true, List, [], ◌∷◌, some, Text, Key, list_key, nat_key, pair_key, arith,
}
use kitaebot.Types.{ToolCall}
use kitaebot.Agent.Repeats.{Json, RepeatDetector, new, fingerprint, record_calls}

module _ (json : Json) where
  -- The detector behind the rounds of a turn, the newest first.
  abbrev pub detector_of : List (List ToolCall) → RepeatDetector json
  detector_of [] = new json
  detector_of (cs ∷ rounds) = (record_calls json (detector_of rounds) cs).0

  prev_of :
      (cs : List ToolCall) (rounds : List (List ToolCall))
      → (detector_of (cs ∷ rounds)).prev ≡ some (fingerprint json cs)
  unfolding record_calls
  prev_of cs rounds = refl

  count_pos :
      (cs : List ToolCall) (rounds : List (List ToolCall)) → 1 ≤ (detector_of (cs ∷ rounds)).count
  unfolding record_calls
  count_pos cs rounds = ground arith

  -- The newest three sets of calls are the same, arguments compared as JSON values.
  abbrev pub Thrice : List (List ToolCall) → Type 0
  Thrice (a ∷ b ∷ c ∷ older) =
      (fingerprint json c ≡ fingerprint json b) × (fingerprint json b ≡ fingerprint json a)
  Thrice _ = ⊥

  -- The repeat detector refuses a round exactly when it and the two rounds before have the same calls.
  pub record_calls-Thrice :
      (cs : List ToolCall) (rounds : List (List ToolCall))
      → ((record_calls json (detector_of rounds) cs).1 ≡ true) ↔ Thrice (cs ∷ rounds)
  unfolding record_calls
  record_calls-Thrice cs [] = ground arith
  record_calls-Thrice cs (ds ∷ []) = ground arith
  record_calls-Thrice cs (ds ∷ es ∷ older) =
      let same : Key (List (Text × json.Value)) = list_key ⦃e = pair_key ⦃f = json.value_key⦄⦄ in
      ground (
        arith,
        count_pos es older,
        same.same_iff (fingerprint json ds) (fingerprint json cs),
        same.same_iff (fingerprint json es) (fingerprint json ds),
      )
