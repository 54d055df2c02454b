-- ===== src/Lcm/Ride.antt =====
-- context/lcm/compaction.rs: how one chunk is summarized, through the cache prefix of the last
-- request where the chunk ends one.
pub mod Alignment
use kitaebot.Common.{
  ℕ, zero, suc, ◌+◌, ◌-◌, Bool, true, false, ◌&&◌, not, List, [], ◌∷◌, ◌++◌, Option, none, some,
  Text, codes, Result, Key, ◌=?◌, length, take, drop, leb, ltb, decimal, if◌then◌else◌, nat_key,
  list_key, same_list,
}
use kitaebot.Types.{Message, user, content}
use kitaebot.Types.Same.{message_key}
use kitaebot.Texts.{goes_on}
use kitaebot.Lcm.Summarize.{
  EscalationOutcome, EscalationLevel, deterministic, summarize_with_escalation,
}

unfoldable pub or_here : Option ℕ → Bool → Option ℕ
or_here (some start) here = some (suc start)
or_here none here = if here then some 0 else none

unfoldable pub past : ℕ → Option ℕ → Option ℕ
past n none = none
past n (some start) = some (start + n)

module _ {A : Type 0} ⦃e : Key A⦄ where
  -- Whether `sent` starts with `chunk`: the first window of the chunk's length is the chunk.
  unfoldable pub window_matches : List A → List A → Bool
  window_matches [] sent = true
  window_matches (c ∷ cs) [] = false
  window_matches (c ∷ cs) (s ∷ ss) = e.same c s && window_matches cs ss

  -- `sent.windows(chunk.len()).rposition(|window| window == chunk)`.
  unfoldable pub last_window : List A → List A → Option ℕ
  unfolding window_matches or_here
  last_window chunk [] = none
  last_window chunk (s ∷ ss) = or_here (last_window chunk ss) (window_matches chunk (s ∷ ss))

  unfoldable pub prefix_end : List A → List A → Option ℕ
  unfolding last_window past
  prefix_end sent [] = none
  prefix_end sent (c ∷ cs) =
      if ltb (length sent) (length (c ∷ cs))
      then none
      else past (length (c ∷ cs)) (last_window (c ∷ cs) sent)

-- `chars().take(n)`: the bytes up to the start of character number `n`.
unfoldable pub take_chars : ℕ → Text → Text
unfolding goes_on
take_chars n [] = []
take_chars zero (b ∷ s) = if goes_on b then b ∷ take_chars zero s else []
take_chars (suc n) (b ∷ s) = if goes_on b then b ∷ take_chars (suc n) s else b ∷ take_chars n s

unfoldable pub anchor : List Message → Text
unfolding take_chars
anchor [] = []
anchor (m ∷ ms) = take_chars 80 (content m)

-- `debug` is `{:?}` of a string.
unfoldable pub ride_instruction : (Text → Text) → Text → List Message → Text
unfolding anchor
ride_instruction debug level_prompt chunk =
    codes "COMPACTION REQUEST "
    ++ (226 ∷ 128 ∷ 148 ∷ [])
    ++ codes " this turn is out of band. Ignore any pending tasks above and do not call tools; "
    ++ codes "reply with the summary text only.\nThe segment to summarize is exactly the final "
    ++ decimal (length chunk)
    ++ codes " messages of the conversation above, beginning with the message that starts: "
    ++ debug (anchor chunk)
    ++ codes ". Everything before that segment is earlier context; do not summarize it.\n\n"
    ++ level_prompt

-- The model: `summarize` asks it afresh about a chunk, `chat` goes on from a list of messages. Each
-- request may change the world `World` that the answers come from.
pub record Model : Type 1 where
  pub World : Type 0
  pub summarize : Text → List Message → World → World × Result Text Text
  pub chat : Text → List Message → World → World × Result Text Text
  pub debug : Text → Text

-- The last request sent: its session and messages. Its tools go with every ride unchanged.
pub record SentRequest : Type 0 where
  pub session : Text
  pub messages : List Message
  pub at : ℕ

module _ (m : Model) where
  open m use {World, summarize, chat, debug}

  unfoldable pub ride_call :
      SentRequest → ℕ → List Message → Text → World → World × Result Text Text
  unfolding ride_instruction
  ride_call sent end messages prompt w =
      chat sent.session
        (take end sent.messages ++ user (ride_instruction debug prompt messages) ∷ []) w

  unfoldable pub fresh_ladder : List Message → World → World × EscalationOutcome
  unfolding summarize_with_escalation
  fresh_ladder messages w =
      summarize_with_escalation (λ prompt w. summarize prompt messages w) messages w

  unfoldable pub is_deterministic : EscalationLevel → Bool
  is_deterministic deterministic = true
  is_deterministic _ = false

  unfoldable pub ride : SentRequest → ℕ → List Message → World → World × EscalationOutcome
  unfolding ride_call is_deterministic fresh_ladder
  ride sent end messages w =
      let (w', outcome) = summarize_with_escalation (ride_call sent end messages) messages w in
      if is_deterministic outcome.level then fresh_ladder messages w' else (w', outcome)

  unfoldable pub aligned : Option SentRequest → List Message → Option (SentRequest × ℕ)
  unfolding prefix_end
  aligned none messages = none
  aligned (some sent) messages = elim (prefix_end sent.messages messages) [
    | none ↦ none
    | some end ↦ some (sent, end)
  ]

  unfoldable pub summarize_chunk :
      List Message → Option SentRequest → World → World × EscalationOutcome
  unfolding aligned ride fresh_ladder
  summarize_chunk messages sent w = elim (aligned sent messages) [
    | none ↦ fresh_ladder messages w
    | some (s, end) ↦ ride s end messages w
  ]
