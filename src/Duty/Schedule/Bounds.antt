-- ===== src/Duty/Schedule/Bounds.antt =====
-- Where `next_due` puts the next run.
use kitaebot.Common.{ℕ, ◌+◌, ◌*◌, ◌%◌, ◌≤◌, ◌<◌, ◌≡◌, some, arith}
use kitaebot.Duty.Schedule.{daily, next_due, u64_mod, day}

-- A daily duty that ran at `last` is next due within one day after it, at its time of day.
pub next_due-daily :
    (time_of_day last now : ℕ)
    → time_of_day < day
    → last + 2 * day < u64_mod
    → (last < next_due (daily time_of_day) (some last) now)
      × (next_due (daily time_of_day) (some last) now ≤ last + day)
      × (next_due (daily time_of_day) (some last) now % day ≡ time_of_day)
unfolding next_due
next_due-daily time_of_day last now h fits = ground arith
