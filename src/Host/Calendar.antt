-- ===== src/Host/Calendar.antt =====
-- crates/boardproof-host/src/clock.rs: seconds since 1970 as a UTC timestamp.
pub mod Years
pub mod Days
use uniclaw.Prelude.{
  ℕ, zero, suc, ℤ, pos, negsuc, ◌+◌, ◌-◌, ◌*◌, ◌/◌, ◌%◌, ◌^◌, ◌≤◌, ◌<◌, ◌≡◌, refl, arith, Bool,
  true, false, not, ◌&&◌, ◌||◌, List, [], ◌∷◌, ◌++◌, Result, ok, err, ltb, leb, ◌==◌, if◌then◌else◌,
  length, Text, text, decimal, min,
}

-- `div_euclid` and `rem_euclid` by a positive number
unfoldable pub div_euclid : ℤ → ℕ → ℤ
div_euclid (pos n) m = pos (n / m)
div_euclid (negsuc n) m = negsuc (n / m)

unfoldable pub rem_euclid : ℤ → ℕ → ℕ
rem_euclid (pos n) m = n % m
rem_euclid (negsuc n) m = m - 1 - n % m

-- A number added to a signed one.
unfoldable pub add : ℤ → ℕ → ℤ
add (pos n) m = pos (n + m)
add (negsuc n) m = if ltb n m then pos (m - n - 1) else negsuc (n - m)

-- `i64::MAX`
abbrev pub i64_max : ℕ
i64_max = 2 ^ 63 - 1

-- `+` of an i64 and a number that is not negative. A sum beyond the largest i64 wraps around, as it
-- does in a release build; a debug build panics there.
unfoldable pub add_i64 : ℤ → ℕ → ℤ
unfolding add
add_i64 (pos n) m = if leb (n + m) i64_max then pos (n + m) else negsuc (2 ^ 64 - 1 - (n + m))
add_i64 (negsuc n) m = add (negsuc n) m

-- A signed number times a positive one.
unfoldable pub scale : ℤ → ℕ → ℤ
scale (pos n) m = pos (n * m)
scale (negsuc n) m = negsuc (n * m + m - 1)

pub record Ymd : Type 0 where
  pub year : ℤ
  pub month : ℕ
  pub day : ℕ

-- The day within its era of 400 years, which begin on a first of March: the year of the era, and the
-- day of that year.
unfoldable pub year_of_era : ℕ → ℕ
year_of_era doe = (doe - doe / 1460 + doe / 36524 - doe / 146096) / 365

unfoldable pub day_of_year : ℕ → ℕ
unfolding year_of_era
day_of_year doe = let yoe = year_of_era doe in doe - (365 * yoe + yoe / 4 - yoe / 100)

unfoldable pub month_index : ℕ → ℕ
month_index doy = (5 * doy + 2) / 153

unfoldable pub day_of_month : ℕ → ℕ
unfolding month_index
day_of_month doy = doy - (153 * month_index doy + 2) / 5 + 1

unfoldable pub month_of : ℕ → ℕ
month_of mp = if ltb mp 10 then mp + 3 else mp - 9

-- The era of a day and the day within it.
abbrev pub from_era : ℤ → ℕ → Ymd
from_era era doe =
    let yoe = year_of_era doe in
    let doy = day_of_year doe in
    let month = month_of (month_index doy) in
    let year_400 = add (scale era 400) yoe in
    record {
      year = if leb month 2 then add year_400 1 else year_400;
      month = month;
      day = day_of_month doy;
    }

-- The first sum is the only one that can leave the i64s: an era is at most 2 ^ 63 / 146097.
unfoldable pub days_to_ymd : ℤ → Ymd
unfolding year_of_era day_of_year month_index day_of_month month_of add add_i64 scale div_euclid
    rem_euclid
days_to_ymd days =
    let z = add_i64 days 719468 in from_era (div_euclid z 146097) (rem_euclid z 146097)

-- `{:0w}`: zeros in front up to the width.
abbrev zeros : ℕ → Text
zeros zero = []
zeros (suc n) = b'0' ∷ zeros n

abbrev padded : ℕ → Text → Text
padded w digits = zeros (w - length digits) ++ digits

-- A sign counts for the width and stands before the zeros.
abbrev padded_ℤ : ℕ → ℤ → Text
padded_ℤ w (pos n) = padded w (decimal n)
padded_ℤ w (negsuc n) = text "-" ++ padded (w - 1) (decimal (suc n))

unfoldable pub format_iso8601_seconds : ℤ → Text
unfolding days_to_ymd
format_iso8601_seconds secs =
    let tod = rem_euclid secs 86400 in
    let date = days_to_ymd (div_euclid secs 86400) in
    padded_ℤ 4 date.year
    ++ (text "-"
        ++ (padded 2 (decimal date.month)
            ++ (text "-"
                ++ (padded 2 (decimal date.day)
                    ++ (text "T"
                        ++ (padded 2 (decimal (tod / 3600))
                            ++ (text ":"
                                ++ (padded 2 (decimal (tod / 60 % 60))
                                    ++ (text ":"
                                        ++ (padded 2 (decimal (tod % 60)) ++ text "Z"))))))))))

-- `SystemClock`, by what the system's time since the epoch is; before it, there is an error.
unfoldable pub system_now : Result (Unit {0}) ℕ → Text
unfolding format_iso8601_seconds
system_now (ok secs) = format_iso8601_seconds (pos (min secs i64_max))
system_now (err _) = format_iso8601_seconds (pos 0)

-- `saturating_add(1)` of an i64
abbrev next_second : ℤ → ℤ
next_second (pos n) = pos (min (n + 1) i64_max)
next_second (negsuc zero) = pos 0
next_second (negsuc (suc n)) = negsuc n

-- `StubClock`: the time that it gives, and the clock afterwards.
unfoldable pub stub_now : ℤ → Text × ℤ
unfolding format_iso8601_seconds
stub_now secs = (format_iso8601_seconds secs, next_second secs)

epoch : format_iso8601_seconds (pos 0) ≡ text "1970-01-01T00:00:00Z"
unfolding format_iso8601_seconds decimal
epoch = refl

before_epoch : format_iso8601_seconds (negsuc 0) ≡ text "1969-12-31T23:59:59Z"
unfolding format_iso8601_seconds decimal
before_epoch = refl

end_of_century : format_iso8601_seconds (pos 4102444799) ≡ text "2099-12-31T23:59:59Z"
unfolding format_iso8601_seconds decimal
end_of_century = refl
