-- ===== src/Tests/Dates.antt =====
-- The theorem on dates (crates/boardproof-host/src/clock.rs) at a day of the year 2024.
use uniclaw.Prelude.{◌≡◌, refl, pos, arith}
use uniclaw.Host.Calendar.{days_to_ymd}
use uniclaw.Host.Calendar.Years.{dated}
use uniclaw.Host.Calendar.Days.{NextDay, days_to_ymd-next_date}

leap_day : days_to_ymd (pos 19782) ≡ dated 2024 2 29
unfolding days_to_ymd
leap_day = refl

days_to_ymd-next_date_example : (days_to_ymd (pos 0) ≡ dated 1970 1 1) × NextDay 19782
days_to_ymd-next_date_example = days_to_ymd-next_date 19782 (omega arith)
