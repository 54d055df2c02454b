-- ===== src/Time.antt =====
-- time.rs: UTC timestamps from seconds since 1970. The days of an epoch are not negative, so signed
-- arithmetic is that of natural numbers here.
pub mod Calendar
mod Tests
use kitaebot.Common.{
  ℕ, ◌+◌, ◌-◌, ◌*◌, ◌/◌, ◌%◌, ◌++◌, List, [], ◌∷◌, Text, codes, decimal, leb, ltb, length,
  if◌then◌else◌,
}

unfoldable pub year_of_era : ℕ → ℕ
year_of_era doe = (doe - doe / 1460 + doe / 36524 - doe / 146096) / 365

unfoldable pub day_of_year : ℕ → ℕ → ℕ
day_of_year doe yoe = doe - (365 * yoe + yoe / 4 - yoe / 100)

-- The day and the month of a day of the year that starts in March.
unfoldable pub month_day : ℕ → ℕ × ℕ
month_day doy =
    let mp = (5 * doy + 2) / 153 in
    (if ltb mp 10 then mp + 3 else mp - 9, doy - (153 * mp + 2) / 5 + 1)

-- Year, month and day.
unfoldable pub civil_from_days : ℕ → ℕ × ℕ × ℕ
unfolding year_of_era day_of_year month_day
civil_from_days days =
    let z = days + 719468 in
    let era = z / 146097 in
    let doe = z % 146097 in
    let yoe = year_of_era doe in
    let (m, d) = month_day (day_of_year doe yoe) in
    (if leb m 2 then yoe + era * 400 + 1 else yoe + era * 400, m, d)
