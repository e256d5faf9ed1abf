-- ===== src/Time/Calendar.antt =====
-- The fields of a UTC date in the proleptic Gregorian calendar, as the `getUTC…` methods of `Date`
-- and `Date.UTC` compute them: year, month from 0, and day of the month from 1.
use flyer_g_be.Base.{ℕ, ◌+◌, ◌-◌, ◌*◌, ◌/◌, ◌%◌, ltb, if◌then◌else◌}

pub record Civil : Type 0 where
  pub year : ℕ
  pub month : ℕ
  pub day : ℕ

-- The calendar repeats after 400 years, and a year is counted from March 1 here, so that a leap
-- day is the last of its year. Day 0 of the count is March 1 of the year 0.
year_of_era : ℕ → ℕ
year_of_era day_of_era =
    (day_of_era - day_of_era / 1460 + day_of_era / 36524 - day_of_era / 146096) / 365

day_of_year : ℕ → ℕ
unfolding year_of_era
day_of_year day_of_era = let y = year_of_era day_of_era in day_of_era - (365 * y + y / 4 - y / 100)

-- The date of a day since 1970-01-01.
unfoldable pub utc_date : ℕ → Civil
unfolding day_of_year
utc_date days =
    let shifted = days + 719468 in
    let day_of_era = shifted % 146097 in
    let in_year = day_of_year day_of_era in
    let from_march = (5 * in_year + 2) / 153 in
    let march_year = year_of_era day_of_era + shifted / 146097 * 400 in
    record {
      year = if ltb from_march 10 then march_year else march_year + 1;
      month = if ltb from_march 10 then from_march + 2 else from_march - 10;
      day = in_year - (153 * from_march + 2) / 5 + 1;
    }

-- The first day of a month (from 0; 12 is the next year's January), counted from 1970-01-01.
unfoldable pub month_start : ℕ → ℕ → ℕ
month_start year month =
    let y = year + month / 12 in
    let m = month % 12 in
    let march_year = if ltb m 2 then y - 1 else y in
    let from_march = if ltb m 2 then m + 10 else m - 2 in
    let year_in_era = march_year % 400 in
    march_year / 400 * 146097
    + (365 * year_in_era + year_in_era / 4 - year_in_era / 100)
    + (153 * from_march + 2) / 5
    - 719468

-- `Date.UTC(year, month, day)` in days.
unfoldable pub utc_days : ℕ → ℕ → ℕ → ℕ
unfolding month_start
utc_days year month day = month_start year month + day - 1

-- `new Date(Date.UTC(year, month + 1, 0)).getUTCDate()`
unfoldable pub last_day_of_month : ℕ → ℕ → ℕ
unfolding utc_date month_start
last_day_of_month year month = (utc_date (month_start year (month + 1) - 1)).day
