-- ===== src/Time/Tests.antt =====
-- The theorem on the calendar at work on 2000-01-01.
use kitaebot.Common.{◌≡◌, refl}
use kitaebot.Time.{civil_from_days}
use kitaebot.Time.Calendar.{days_of, IsDate, civil_from_days-days_of}

y2k : civil_from_days 10957 ≡ (2000, 1, 1)
unfolding civil_from_days kitaebot.Time.year_of_era kitaebot.Time.day_of_year
    kitaebot.Time.month_day
y2k = refl

civil_from_days-days_of_example :
    (days_of (civil_from_days 10957) ≡ 10957) × IsDate (civil_from_days 10957)
civil_from_days-days_of_example = civil_from_days-days_of 10957
