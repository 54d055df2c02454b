-- ===== src/Duty/Schedule.antt =====
-- duty/schedule.rs: when a duty is next due, and the two notations for it in the configuration.
-- A text is the list of its UTF-8 bytes. u64 and u32 arithmetic keeps its wrap-around.
pub mod Bounds
pub mod Parse
use kitaebot.Common.{
  ℕ, ◌+◌, ◌-◌, ◌*◌, ◌%◌, ◌^◌, Bool, true, false, ◌&&◌, ◌||◌, not, Option, none, some, List, [], ◌∷◌,
  ltb, leb, ◌==◌, if◌then◌else◌, length, Result, ok, err, ◌>>=◌, or_fail,
}

abbrev pub u64_mod : ℕ
u64_mod = 2 ^ 64

abbrev pub u32_mod : ℕ
u32_mod = 2 ^ 32

abbrev pub day : ℕ
day = 86400

pub data Schedule : Type 0 where
  every : ℕ → Schedule
  daily : ℕ → Schedule

-- The time of day on the day of `last`, or on the next day if that has passed.
daily_after : ℕ → ℕ → ℕ
daily_after time_of_day last =
    let today = (last - last % day + time_of_day) % u64_mod in
    if ltb last today then today else (today + day) % u64_mod

unfoldable pub next_due : Schedule → Option ℕ → ℕ → ℕ
unfolding daily_after
next_due s none now = now
next_due (every period) (some last) now = (last + period) % u64_mod
next_due (daily time_of_day) (some last) now = daily_after time_of_day last

-- `panics` is `split_at` between the bytes of one character: the process stops.
pub data ParseError : Type 0 where
  invalid_interval invalid_unit not_positive invalid_time panics : ParseError

-- The rest of `uN::from_str` behind the sign: digits only, checked against the modulus.
digits_value : ℕ → List ℕ → ℕ → Option ℕ
digits_value modulus [] n = some n
digits_value modulus (c ∷ s) n =
    let m = n * 10 + (c - b'0') in
    if leb b'0' c && leb c b'9' && ltb m modulus then digits_value modulus s m else none

-- At least one digit.
nonempty_value : ℕ → List ℕ → Option ℕ
unfolding digits_value
nonempty_value modulus [] = none
nonempty_value modulus (c ∷ s) = digits_value modulus (c ∷ s) 0

-- `uN::from_str`: one leading `+` is allowed.
unfoldable pub parse_uint : ℕ → List ℕ → Option ℕ
unfolding nonempty_value
parse_uint modulus [] = none
parse_uint modulus (c ∷ s) =
    if c == b'+' then nonempty_value modulus s else nonempty_value modulus (c ∷ s)

-- All bytes but the last, and the last: `split_at(len - 1)`.
split_last : List ℕ → List ℕ × List ℕ
split_last [] = ([], [])
split_last (c ∷ []) = ([], c ∷ [])
split_last (c ∷ d ∷ s) = let (front, back) = split_last (d ∷ s) in (c ∷ front, back)

-- A byte inside a character: no text can be cut in front of it.
is_continuation : List ℕ → Bool
is_continuation [] = false
is_continuation (c ∷ s) = leb 128 c && ltb c 192

-- The match on the unit.
unfoldable pub unit_seconds : List ℕ → Option ℕ
unit_seconds [] = none
unit_seconds (u ∷ v ∷ _) = none
unit_seconds (u ∷ []) =
    if u == b's'
    then some 1
    else if u == b'm'
    then some 60
    else if u == b'h'
    then some 3600
    else if u == b'd'
    then some 86400
    else none

positive : ℕ → Result ParseError ℕ
positive secs = if secs == 0 then err not_positive else ok secs

interval : List ℕ → List ℕ → Result ParseError ℕ
unfolding parse_uint unit_seconds positive
interval digits unit = do
  n ← or_fail (parse_uint u64_mod digits) invalid_interval
  scale ← or_fail (unit_seconds unit) invalid_unit
  positive ((n * scale) % u64_mod)

unfoldable pub parse_every : List ℕ → Result ParseError ℕ
unfolding interval split_last is_continuation
parse_every s =
    let (digits, unit) = split_last s in
    if is_continuation unit then err panics else interval digits unit

-- `split_once(':')`.
split_colon : List ℕ → Option (List ℕ × List ℕ)
split_colon [] = none
split_colon (c ∷ s) = elim (c == b':') [
  | true ↦ some ([], s)
  | false ↦ elim (split_colon s) [ none ↦ none | some (front, back) ↦ some (c ∷ front, back) ]
]

time_of : List ℕ → List ℕ → Result ParseError ℕ
unfolding parse_uint
time_of hh mm = do
  hours ← or_fail (parse_uint u32_mod hh) invalid_time
  minutes ← or_fail (parse_uint u32_mod mm) invalid_time
  if not (length hh == 2) || not (length mm == 2) || ltb 23 hours || ltb 59 minutes
      then err invalid_time
      else ok (hours * 3600 + minutes * 60)

unfoldable pub parse_daily : List ℕ → Result ParseError ℕ
unfolding split_colon time_of
parse_daily s = do (hh, mm) ← or_fail (split_colon s) invalid_time; time_of hh mm
