-- ===== src/Time/Examples.antt =====
-- src/common/time/seoul-time.ts on dates.
use flyer_g_be.Base.{◌≡◌, refl}
use flyer_g_be.Time.{add_months_in_seoul}

-- 2026-01-31 10:00 KST and a month later: 2026-02-28 10:00 KST.
month_end : add_months_in_seoul 1769821200000 1 ≡ 1772240400000
unfolding add_months_in_seoul
month_end = refl

-- 2027-11-30 23:30 KST and three months later: 2028-02-29 23:30 KST.
leap_day : add_months_in_seoul 1827585000000 3 ≡ 1835447400000
unfolding add_months_in_seoul
leap_day = refl
