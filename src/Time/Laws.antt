-- ===== src/Time/Laws.antt =====
-- src/common/time/seoul-time.ts: the Seoul day that an instant lies in.
use flyer_g_be.Base.{ℕ, ◌+◌, ◌/◌, ◌%◌, ◌≤◌, ◌<◌, ◌≡◌, ◌↔◌, true, arith}
use flyer_g_be.Time.{
  day_ms, seoul_offset_ms, seoul_minute_of_day, seoul_date, start_of_seoul_day, is_seoul_midnight,
  add_seoul_days,
}

-- The minute of the day is the part of the Seoul day that has passed, and below 1440.
seoul_minute_of_day-eq :
    (t : ℕ)
    → (seoul_minute_of_day t ≡ (t + seoul_offset_ms) % day_ms / 60000)
      × (seoul_minute_of_day t < 1440)
unfolding seoul_minute_of_day
seoul_minute_of_day-eq t = omega arith

-- A time with a Seoul date from 1970-01-02 on is at or after the start of its Seoul day and before
-- the end of it, 24 hours later.
seoul_day_bounds :
    (t : ℕ)
    → 1 ≤ seoul_date t
    → (start_of_seoul_day (seoul_date t) ≤ t) × (t < start_of_seoul_day (seoul_date t) + day_ms)
unfolding seoul_date start_of_seoul_day
seoul_day_bounds t h = omega arith

seoul_date-start_of_seoul_day : (day : ℕ) → 1 ≤ day → seoul_date (start_of_seoul_day day) ≡ day
unfolding seoul_date start_of_seoul_day
seoul_date-start_of_seoul_day day h = omega arith

-- A time with a Seoul date from 1970-01-02 on is a midnight in Seoul exactly if a whole number of
-- days has passed on the clock of Seoul.
is_seoul_midnight_iff :
    (t : ℕ) → 1 ≤ seoul_date t → (is_seoul_midnight t ≡ true) ↔ ((t + seoul_offset_ms) % day_ms ≡ 0)
unfolding is_seoul_midnight seoul_date
is_seoul_midnight_iff t h = (λ e. ground arith, λ e. ground arith)

-- From the date 1970-01-02 on, adding days to a Seoul date, through the start of the day and back,
-- counts the dates on by as many.
add_seoul_days-eq : (day n : ℕ) → 1 ≤ day → add_seoul_days day n ≡ day + n
unfolding add_seoul_days
add_seoul_days-eq day n h = omega arith
