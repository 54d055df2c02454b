-- ===== src/Lcm/Summarize/Ladder.antt =====
-- context/lcm/summarize.rs: what each level of the ladder promises.
use kitaebot.Common.{
  ℕ, ◌+◌, ◌≤◌, ◌<◌, ◌≡◌, subst, sym, inl, inr, refl, some, Text, List, ok, err, Result, length,
  length-append, arith, Option-cases,
}
use kitaebot.Types.{Message, estimate_tokens}
use kitaebot.Texts.Cuts.{length-prefix}
use kitaebot.Texts.{prefix}
use kitaebot.Lcm.Prompts.{level_1_prompt, level_2_prompt}
use kitaebot.Lcm.Summarize.{
  EscalationOutcome, normal, aggressive, deterministic, accept, accepted, outcome_of, level_2,
  level_3, summarize_with_escalation, estimate_messages_tokens, truncate_messages, truncation_note,
  level_3_token_budget, format_messages_for_summary,
}

-- A summary that the model wrote: fewer tokens than its input, and not degenerate.
Compresses : List Message → EscalationOutcome → Type 0
Compresses messages o =
    (o.output_tokens ≡ estimate_tokens o.content)
    × (o.output_tokens < estimate_messages_tokens messages)
    × (500 ≤ estimate_messages_tokens messages → 500 ≤ length o.content)

accept-some :
    (content : Text) (n m : ℕ)
    → accept content n ≡ some m
    → (m ≡ estimate_tokens content) × (m < n) × (500 ≤ n → 500 ≤ length content)
unfolding accept
accept-some content n m h = ground arith

-- A summary that was cut to the budget of the last level, and the note behind it.
Truncated : List Message → EscalationOutcome → Type 0
Truncated messages o =
    (o.output_tokens ≡ estimate_tokens o.content)
    × (length o.content
        ≤ 2048 + length (truncation_note (estimate_messages_tokens messages) level_3_token_budget))

pub Promise : List Message → EscalationOutcome → Type 0
unfolding Compresses Truncated
Promise messages o = elim o.level [
  | deterministic ↦ Truncated messages o
  | _ ↦ Compresses messages o
]

level_3-Truncated : (messages : List Message) → Truncated messages (level_3 messages)
unfolding Truncated level_3 outcome_of truncate_messages
level_3-Truncated messages =
    let formatted = format_messages_for_summary messages in
    let note = truncation_note (estimate_messages_tokens messages) level_3_token_budget in
    (refl, ground (arith, length-prefix formatted 2048, length-append (prefix formatted 2048) note))

accepted-some :
    (answer : Result Text Text) (n : ℕ) (content : Text) (m : ℕ)
    → accepted answer n ≡ some (content, m)
    → (m ≡ estimate_tokens content) × (m < n) × (500 ≤ n → 500 ≤ length content)
unfolding accepted accept
accepted-some (err e) n content m h = cc
accepted-some (ok answer) n content m h = ground arith

of_level_3 : (messages : List Message) → Promise messages (level_3 messages)
unfolding Promise level_3 outcome_of
of_level_3 messages = level_3-Truncated messages

of_normal :
    (messages : List Message) (answer : Result Text Text) (content : Text) (m : ℕ)
    → accepted answer (estimate_messages_tokens messages) ≡ some (content, m)
    → Promise messages (outcome_of normal (estimate_messages_tokens messages) (content, m))
unfolding Promise outcome_of Compresses
of_normal messages answer content m e =
    accepted-some answer (estimate_messages_tokens messages) content m e

of_aggressive :
    (messages : List Message) (answer : Result Text Text) (content : Text) (m : ℕ)
    → accepted answer (estimate_messages_tokens messages) ≡ some (content, m)
    → Promise messages (outcome_of aggressive (estimate_messages_tokens messages) (content, m))
unfolding Promise outcome_of Compresses
of_aggressive messages answer content m e =
    accepted-some answer (estimate_messages_tokens messages) content m e

by_outcome :
    (messages : List Message) (o o' : EscalationOutcome)
    → o ≡ o'
    → Promise messages o'
    → Promise messages o
by_outcome messages o o' e p = subst (Promise messages) (sym e) p

module _ {W : Type 0} (call : Text → W → W × Result Text Text) where
  level_2-Promise : (messages : List Message) (w : W) → Promise messages (level_2 call messages w).1
  unfolding level_2
  level_2-Promise messages w =
      let n = estimate_messages_tokens messages in
      let answer = (call level_2_prompt w).1 in
      elim (Option-cases (accepted answer n)) [
        | inl e ↦
            by_outcome messages _ (level_3 messages) (rw (level_2, e) refl) (of_level_3 messages)
        | inr ((content, m), e) ↦
            by_outcome messages _ (outcome_of aggressive n (content, m)) (rw (level_2, e) refl)
              (of_aggressive messages answer content m e)
      ]

  -- A summary of the ladder's first two levels has fewer estimated tokens than its input and, where
  -- the input's estimate is 500 tokens or more, at least 500 bytes. The last level's is at most 2048
  -- bytes long and a note. The recorded count is the estimate of the text in each case.
  pub summarize-Promise :
      (messages : List Message) (w : W)
      → Promise messages (summarize_with_escalation call messages w).1
  unfolding summarize_with_escalation
  summarize-Promise messages w =
      let n = estimate_messages_tokens messages in
      let answer = (call level_1_prompt w).1 in
      elim (Option-cases (accepted answer n)) [
        | inl e ↦
            by_outcome messages _ (level_2 call messages (call level_1_prompt w).0).1
              (rw (summarize_with_escalation, e) refl)
              (level_2-Promise messages (call level_1_prompt w).0)
        | inr ((content, m), e) ↦
            by_outcome messages _ (outcome_of normal n (content, m))
              (rw (summarize_with_escalation, e) refl) (of_normal messages answer content m e)
      ]
