-- ===== src/Time.antt =====
-- src/common/time/seoul-time.ts. A `Date` is its milliseconds since 1970; the model's numbers
-- hold the times from 1970-01-02 on, so that no subtraction of the Seoul offset goes below 0.
-- A Seoul date `YYYY-MM-DD` stands as the number of its day since 1970-01-01.
pub mod Laws
pub mod Calendar
mod Examples
use flyer_g_be.Base.{ℕ, ◌+◌, ◌-◌, ◌*◌, ◌/◌, ◌%◌, ◌==◌, Bool, min}
use flyer_g_be.Time.Calendar.{utc_date, utc_days, last_day_of_month, Civil}

abbrev pub day_ms : ℕ
day_ms = 86400000

-- Korea has no daylight saving time: UTC+9.
abbrev pub seoul_offset_ms : ℕ
seoul_offset_ms = 9 * 60 * 60 * 1000

-- `getUTCHours`, `getUTCMinutes`
abbrev utc_hours : ℕ → ℕ
utc_hours date = date / 3600000 % 24

abbrev utc_minutes : ℕ → ℕ
utc_minutes date = date / 60000 % 60

-- `seoulMinuteOfDay`
unfoldable pub seoul_minute_of_day : ℕ → ℕ
seoul_minute_of_day date =
    let local = date + seoul_offset_ms in utc_hours local * 60 + utc_minutes local

-- `seoulDate`
unfoldable pub seoul_date : ℕ → ℕ
seoul_date date = (date + seoul_offset_ms) / day_ms

-- `startOfSeoulDay`
unfoldable pub start_of_seoul_day : ℕ → ℕ
start_of_seoul_day day = day * day_ms - seoul_offset_ms

-- `isSeoulMidnight`
unfoldable pub is_seoul_midnight : ℕ → Bool
unfolding seoul_date start_of_seoul_day
is_seoul_midnight date = start_of_seoul_day (seoul_date date) == date

-- `addSeoulDays`
unfoldable pub add_seoul_days : ℕ → ℕ → ℕ
unfolding seoul_date start_of_seoul_day
add_seoul_days day days = seoul_date (start_of_seoul_day day + days * day_ms)

-- `addMonthsInSeoul`
unfoldable pub add_months_in_seoul : ℕ → ℕ → ℕ
unfolding utc_date utc_days last_day_of_month
add_months_in_seoul date months =
    let local = date + seoul_offset_ms in
    let fields = utc_date (local / day_ms) in
    let month = fields.month + months in
    let last_day = last_day_of_month fields.year month in
    let shifted = utc_days fields.year month (min fields.day last_day) * day_ms + local % day_ms in
    shifted - seoul_offset_ms
