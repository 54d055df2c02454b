-- ===== src/Lcm/Transcript.antt =====
-- context/lcm/engine.rs: the part of a conversation that waits to be distilled.
pub mod Greedy
use kitaebot.Common.{
  ℕ, ◌+◌, ◌-◌, ◌^◌, Bool, true, false, ◌&&◌, List, [], ◌∷◌, map, Option, none, some, Text, Result,
  ok, err, ◌>>=◌, ltb, leb, keep_if, sum_of, if◌then◌else◌,
}
use kitaebot.Types.{Message}
use kitaebot.Lcm.Store.{MessageRow, EngineError, reconstruct_message, to_i64}

-- The rows `seq >= after`, in the order of `seq`.
unfoldable pub pending_rows : ℕ → List MessageRow → List MessageRow
unfolding to_i64
pending_rows after rows = keep_if (λ r. leb (to_i64 after) r.seq) rows

-- Pass 1: the first row that would leave the budget, once a row is kept.
unfoldable pub cutoff : ℕ → Bool → ℕ → List MessageRow → Option ℕ
cutoff max_tokens kept total [] = none
cutoff max_tokens kept total (r ∷ rs) =
    let rest = cutoff max_tokens true (total + r.token_count) rs in
    if kept && ltb max_tokens (total + r.token_count) then some r.seq else rest

abbrev pub i64_max : ℕ
i64_max = 2 ^ 63 - 1

-- Pass 2: the rows below the cutoff.
unfoldable pub below_cutoff : Option ℕ → List MessageRow → List MessageRow
below_cutoff none rows = keep_if (λ r. ltb r.seq i64_max) rows
below_cutoff (some c) rows = keep_if (λ r. ltb r.seq c) rows

unfoldable pub rebuild : List MessageRow → Result EngineError (List Message)
unfolding reconstruct_message
rebuild [] = ok []
rebuild (r ∷ rs) = do m ← reconstruct_message r; ms ← rebuild rs; ok (m ∷ ms)

unfoldable pub span_since : ℕ → ℕ → List MessageRow → List MessageRow
unfolding pending_rows cutoff below_cutoff
span_since after max_tokens rows =
    below_cutoff (cutoff max_tokens false 0 (pending_rows after rows)) (pending_rows after rows)

-- `none` is a conversation that is not there.
unfoldable pub transcript_since_sync :
    ℕ → ℕ → Option (List MessageRow) → Result EngineError (List Message)
unfolding span_since rebuild
transcript_since_sync after max_tokens none = ok []
transcript_since_sync after max_tokens (some rows) = rebuild (span_since after max_tokens rows)

-- The tokens behind a watermark.
unfoldable pub pending_distill_tokens : ℕ → List MessageRow → ℕ
unfolding pending_rows
pending_distill_tokens since rows = sum_of (λ r. r.token_count) (pending_rows since rows)
