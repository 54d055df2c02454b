-- ===== src/Time/Calendar.antt =====
-- `civil_from_days` against the count of days of the calendar.
use kitaebot.Common.{
  ℕ, ◌+◌, ◌-◌, ◌*◌, ◌/◌, ◌%◌, ◌≤◌, ◌<◌, ◌≡◌, refl, inl, inr, Bool, true, false, not, ◌&&◌, ◌||◌,
  arith, leb, ◌==◌, Bool-cases, if◌then◌else◌,
}
use kitaebot.Time.{year_of_era, day_of_year, month_day, civil_from_days}

month_day_bounds :
    (doy : ℕ)
    → doy ≤ 365
    → (1 ≤ (month_day doy).0)
      × ((month_day doy).0 ≤ 12)
      × (1 ≤ (month_day doy).1)
      × ((month_day doy).1 ≤ 31)
unfolding month_day
month_day_bounds doy h = ground arith

year_of_era_bound : (doe : ℕ) → doe < 146097 → year_of_era doe < 400
unfolding year_of_era
year_of_era_bound doe h = omega arith

day_of_year_bound : (doe : ℕ) → doe < 146097 → day_of_year doe (year_of_era doe) ≤ 365
unfolding year_of_era day_of_year
day_of_year_bound doe h = omega arith

-- The days of the years before a year of the era, which starts in March: a leap day every fourth
-- year but the hundredth.
abbrev pub days_before : ℕ → ℕ
days_before yoe = yoe * 365 + yoe / 4 - yoe / 100

-- The month counted from March.
abbrev pub from_march : ℕ → ℕ
from_march m = if leb m 2 then m + 9 else m - 3

-- The number of a date, counted from 1970-01-01 in the Gregorian calendar.
abbrev pub days_of : ℕ × ℕ × ℕ → ℕ
days_of (y, m, d) =
    let y' = if leb m 2 then y - 1 else y in
    y' / 400 * 146097 + days_before (y' % 400) + ((153 * from_march m + 2) / 5 + (d - 1)) - 719468

month_day_exact :
    (doy : ℕ)
    → doy ≤ 365
    → (153 * from_march (month_day doy).0 + 2) / 5 + ((month_day doy).1 - 1) ≡ doy
unfolding month_day
month_day_exact doy h = ground arith

day_of_year_exact :
    (doe : ℕ)
    → doe < 146097
    → days_before (year_of_era doe) + day_of_year doe (year_of_era doe) ≡ doe
unfolding year_of_era day_of_year
day_of_year_exact doe h = omega arith

-- The year of the calendar year's date, back in the years that start in March.
march_year :
    (m yoe era : ℕ)
    → yoe < 400
    → (if leb m 2
        then (if leb m 2 then yoe + era * 400 + 1 else yoe + era * 400) - 1
        else (if leb m 2 then yoe + era * 400 + 1 else yoe + era * 400))
      ≡ yoe + era * 400
march_year m yoe era h = ground arith

era_of :
    (yoe era : ℕ) → yoe < 400 → ((yoe + era * 400) / 400 ≡ era) × ((yoe + era * 400) % 400 ≡ yoe)
era_of yoe era h = (omega arith, omega arith)

-- The Gregorian rule of the leap years.
abbrev pub is_leap : ℕ → Bool
is_leap y = (y % 4 == 0) && (not (y % 100 == 0) || (y % 400 == 0))

abbrev pub month_length : Bool → ℕ → ℕ
month_length leap m =
    if m == 2
    then if leap then 29 else 28
    else if (m == 4) || (m == 6) || (m == 9) || (m == 11)
    then 30
    else 31

abbrev pub IsDate : ℕ × ℕ × ℕ → Type 0
IsDate (y, m, d) = (1 ≤ m) × (m ≤ 12) × (1 ≤ d) × (d ≤ month_length (is_leap y) m)

-- February ends with the year that starts in March, whose last day is there in leap years only.
month_day-length :
    (leap : Bool) (doy : ℕ)
    → doy ≤ 365
    → (doy ≡ 365 → leap ≡ true)
    → (month_day doy).1 ≤ month_length leap (month_day doy).0
unfolding month_day
month_day-length true doy h last = ground arith
month_day-length false doy h last = let other : doy ≤ 364 = ground arith in ground arith

fourth_year :
    (doe : ℕ)
    → doe < 146097
    → day_of_year doe (year_of_era doe) ≡ 365
    → (year_of_era doe + 1) % 4 ≡ 0
unfolding year_of_era day_of_year
fourth_year doe h last = omega arith

hundredth_year :
    (doe : ℕ)
    → doe < 146097
    → day_of_year doe (year_of_era doe) ≡ 365
    → (year_of_era doe + 1) % 100 ≡ 0
    → (year_of_era doe + 1) % 400 ≡ 0
unfolding year_of_era day_of_year
hundredth_year doe h last e = omega arith

-- The year that holds the 29th of February.
leap_day :
    (doe era : ℕ)
    → doe < 146097
    → day_of_year doe (year_of_era doe) ≡ 365
    → is_leap (year_of_era doe + era * 400 + 1) ≡ true
leap_day doe era h last =
    leap (year_of_era doe) (fourth_year doe h last) (hundredth_year doe h last)
  where
    leap :
        (y : ℕ)
        → (y + 1) % 4 ≡ 0
        → ((y + 1) % 100 ≡ 0 → (y + 1) % 400 ≡ 0)
        → is_leap (y + era * 400 + 1) ≡ true
    leap y four hundred =
        let four' : (y + era * 400 + 1) % 4 ≡ 0 = omega arith in
        let same : (y + era * 400 + 1) % 100 ≡ (y + 1) % 100 = omega arith in
        let same' : (y + era * 400 + 1) % 400 ≡ (y + 1) % 400 = omega arith in ground arith

in_february : (doy : ℕ) → doy ≡ 365 → leb (month_day doy).0 2 ≡ true
unfolding month_day
in_february doy e = rw e refl

in_month :
    (yoe era doy : ℕ)
    → doy ≤ 365
    → (doy ≡ 365 → is_leap (yoe + era * 400 + 1) ≡ true)
    → (month_day doy).1
      ≤ month_length
          (is_leap (if leb (month_day doy).0 2 then yoe + era * 400 + 1 else yoe + era * 400))
          (month_day doy).0
in_month yoe era doy h last = elim (Bool-cases (leb (month_day doy).0 2)) [
  | inl e ↦ rw e (month_day-length (is_leap (yoe + era * 400 + 1)) doy h last)
  | inr e ↦
      rw e
        (month_day-length (is_leap (yoe + era * 400)) doy h (λ k. absurd (cc (in_february doy k))))
]

-- The date of a day is a date of the Gregorian calendar, whose months have their lengths and whose
-- February has a 29th in leap years only; and counted in that calendar it is the day again.
pub civil_from_days-days_of :
    (days : ℕ) → (days_of (civil_from_days days) ≡ days) × IsDate (civil_from_days days)
unfolding civil_from_days
civil_from_days-days_of days =
    let era = (days + 719468) / 146097 in
    let doe = (days + 719468) % 146097 in
    let small : doe < 146097 = omega arith in
    let yoe = year_of_era doe in
    let year = year_of_era_bound doe small in
    let doy = day_of_year doe yoe in
    let in_year = day_of_year_bound doe small in
    let (month_low, month_high, day_low, day_high) = month_day_bounds doy in_year in
    (
      rw
          (
            march_year (month_day doy).0 yoe era year,
            (era_of yoe era year).0,
            (era_of yoe era year).1,
            month_day_exact doy in_year,
          )
          (omega (arith, day_of_year_exact doe small)),
      (month_low, month_high, day_low, in_month yoe era doy in_year (leap_day doe era small)),
    )
