-- ===== src/Host/Calendar/Years.antt =====
-- The calendar by itself, and the days of its years (crates/boardproof-host/src/clock.rs).
use uniclaw.Prelude.{
  ℕ, ◌+◌, ◌-◌, ◌*◌, ◌/◌, ◌%◌, ◌≤◌, ◌<◌, ◌≡◌, refl, sym, ◌∙◌, ◌⊎◌, inl, inr, Bool, true, pos, false,
  not, ◌&&◌, ◌||◌, ltb, leb, ◌==◌, if◌then◌else◌, failures, passes, arith, dec_lt,
}
use uniclaw.Host.Calendar.{
  add, scale, Ymd, year_of_era, day_of_year, month_index, day_of_month, month_of, from_era,
}

-- The Gregorian calendar, by itself.
unfoldable pub is_leap : ℕ → Bool
is_leap y = if y % 4 == 0 then (if y % 100 == 0 then y % 400 == 0 else true) else false

unfoldable pub days_in_month : Bool → ℕ → ℕ
days_in_month leap m =
    if m == 2
    then (if leap then 29 else 28)
    else if m == 4 || m == 6 || m == 9 || m == 11
    then 30
    else 31

abbrev pub dated : ℕ → ℕ → ℕ → Ymd
dated y m d = record { year = pos y; month = m; day = d }

-- The day after a date.
unfoldable pub next_date : ℕ → ℕ → ℕ → Ymd
next_date y m d =
    if ltb d (days_in_month (is_leap y) m)
    then dated y m (d + 1)
    else if ltb m 12
    then dated y (m + 1) 1
    else dated (y + 1) 1 1

pub year_of_era_bounds :
    (doe : ℕ)
    → doe < 146097
    → let y = year_of_era doe in
      (y < 400)
      × (365 * y + y / 4 ≤ doe + y / 100)
      × (doe + (y + 1) / 100 < 365 * (y + 1) + (y + 1) / 4 + (y + 1) / 400)
unfolding year_of_era
year_of_era_bounds doe h = omega arith

-- The length of a year that begins in March, by whether the February in it is a leap year's.
abbrev pub year_length : Bool → ℕ
year_length leap = if leap then 366 else 365

-- What holds of a day of such a year, and of the one after it.
abbrev month_fine : Bool → ℕ → Bool
month_fine leap doy =
    let m = month_of (month_index doy) in
    let k = day_of_month doy in
    let m' = month_of (month_index (doy + 1)) in
    let k' = day_of_month (doy + 1) in
    leb 1 m
    && leb m 12
    && leb 1 k
    && leb k (days_in_month leap m)
    && (if doy + 1 == year_length leap
        then m == 2 && k == days_in_month leap m
        else if ltb k (days_in_month leap m)
        then m' == m && k' == k + 1
        else k' == 1 && (if ltb m 12 then m' == m + 1 else m' == 1) && not (m == 2))

month_table : (leap : Bool) → failures (λ doy. month_fine leap doy) (year_length leap) ≡ 0
unfolding failures month_index day_of_month month_of days_in_month
month_table true = refl
month_table false = refl

pub month_lem : (leap : Bool) (doy : ℕ) → doy < year_length leap → month_fine leap doy ≡ true
month_lem leap doy h = passes (λ d. month_fine leap d) doy (year_length leap) h (month_table leap)

-- The date of a day of the year that begins in March of `y`.
abbrev pub at : ℕ → ℕ → Ymd
at y doy =
    let month = month_of (month_index doy) in
    record {
      year = if leb month 2 then pos (y + 1) else pos y;
      month = month;
      day = day_of_month doy;
    }

from_era-at :
    (era doe : ℕ) → from_era (pos era) doe ≡ at (era * 400 + year_of_era doe) (day_of_year doe)
unfolding add scale
from_era-at era doe = refl

-- The length of a month depends on the year only in February, which the year `y + 1` has.
pub month_length :
    (y doy : ℕ)
    → let m = month_of (month_index doy) in
      days_in_month (is_leap (if leb m 2 then y + 1 else y)) m ≡ days_in_month (is_leap (y + 1)) m
unfolding days_in_month
month_length y doy = ground arith

-- The day after a day that is not the last of the year from March on.
pub at-within :
    (y doy : ℕ)
    → doy + 1 < year_length (is_leap (y + 1))
    → next_date
        (if leb (month_of (month_index doy)) 2 then y + 1 else y)
        (month_of (month_index doy))
        (day_of_month doy)
      ≡ at y (doy + 1)
unfolding next_date
at-within y doy h =
    ground (arith, month_length y doy, month_lem (is_leap (y + 1)) doy (omega arith))

first_day : (y : ℕ) → at y 0 ≡ dated y 3 1
unfolding month_of month_index day_of_month
first_day y = refl

-- The day after the last one.
pub at-last :
    (y doy : ℕ)
    → doy + 1 ≡ year_length (is_leap (y + 1))
    → next_date
        (if leb (month_of (month_index doy)) 2 then y + 1 else y)
        (month_of (month_index doy))
        (day_of_month doy)
      ≡ at (y + 1) 0
unfolding next_date
at-last y doy h =
    ground (arith, month_length y doy, month_lem (is_leap (y + 1)) doy (omega arith))
    ∙ sym (first_day (y + 1))

-- The day of an era lies in the year of the era.
abbrev pub Lies : ℕ → ℕ → Type 0
Lies doe y =
    (y < 400)
    × (365 * y + y / 4 ≤ doe + y / 100)
    × (doe + (y + 1) / 100 < 365 * (y + 1) + (y + 1) / 4 + (y + 1) / 400)

abbrev pub day_in : ℕ → ℕ → ℕ
day_in doe y = doe - (365 * y + y / 4 - y / 100)

pub year_choice : (doe y y' : ℕ) → Lies doe y → Lies (doe + 1) y' → (y' ≡ y) ⊎ (y' ≡ y + 1)
year_choice doe y y' a b = elim (dec_lt y y') [
  | yes later ↦ inr (omega arith)
  | no same ↦ inl (omega arith)
]

pub leap_length :
    (y : ℕ)
    → y < 400
    → 365 * (y + 1) + (y + 1) / 4 + (y + 1) / 400 + y / 100
      ≡ 365 * y + y / 4 + (y + 1) / 100 + year_length (is_leap (y + 1))
unfolding is_leap
leap_length y h = ground arith

pub within_year :
    (doe y : ℕ)
    → Lies doe y
    → Lies (doe + 1) y
    → (day_in doe y + 1 < year_length (is_leap (y + 1))) × (day_in (doe + 1) y ≡ day_in doe y + 1)
within_year doe y a b = (omega (arith, leap_length y a.0), omega arith)

pub next_year :
    (doe y : ℕ)
    → Lies doe y
    → Lies (doe + 1) (y + 1)
    → (day_in doe y + 1 ≡ year_length (is_leap (y + 1))) × (day_in (doe + 1) (y + 1) ≡ 0)
next_year doe y a b = (omega (arith, leap_length y a.0), omega (arith, leap_length y a.0))

pub is_leap-era : (era y : ℕ) → is_leap (era * 400 + y) ≡ is_leap y
unfolding is_leap
is_leap-era era y = ground arith

-- The year, the month and the day of the month of a day of the year from March of `y` on.
abbrev pub year_at : ℕ → ℕ → ℕ
year_at y doy = if leb (month_of (month_index doy)) 2 then y + 1 else y

pub at-dated :
    (y doy : ℕ) → at y doy ≡ dated (year_at y doy) (month_of (month_index doy)) (day_of_month doy)
at-dated y doy = ground arith

abbrev pub following : ℕ → ℕ → Ymd
following y doy = next_date (year_at y doy) (month_of (month_index doy)) (day_of_month doy)
