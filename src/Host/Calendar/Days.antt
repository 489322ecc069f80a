-- ===== src/Host/Calendar/Days.antt =====
-- The days of the calendar (crates/boardproof-host/src/clock.rs).
use uniclaw.Prelude.{
  ℕ, ◌+◌, ◌-◌, ◌*◌, ◌/◌, ◌%◌, ◌^◌, ◌≤◌, ◌<◌, ◌≡◌, refl, sym, ap, subst, ◌∙◌, ◌⊎◌, inl, inr, true,
  pos, negsuc, false, Bool-cases, leb, arith, dec_lt,
}
use uniclaw.Host.Calendar.{
  add, scale, Ymd, year_of_era, day_of_year, month_index, day_of_month, month_of, from_era,
  days_to_ymd, i64_max,
}
use uniclaw.Host.Calendar.Years.{
  month_lem, year_choice, month_length, at-within, next_year, at-last, leap_length, within_year,
  year_of_era_bounds, at-dated, is_leap-era, is_leap, days_in_month, dated, next_date, year_length,
  at, Lies, day_in, year_at, following,
}

abbrev place : ℕ → ℕ → Ymd
place era doe = at (era * 400 + year_of_era doe) (day_of_year doe)

day_of_year-eq : (doe : ℕ) → day_of_year doe ≡ day_in doe (year_of_era doe)
unfolding day_of_year
day_of_year-eq doe = refl

same_length :
    (era y : ℕ) → year_length (is_leap (era * 400 + y + 1)) ≡ year_length (is_leap (y + 1))
same_length era y = ap (λ b. year_length b) (ap is_leap (omega arith) ∙ is_leap-era era (y + 1))

within_era :
    (era doe : ℕ)
    → doe + 1 < 146097
    → following (era * 400 + year_of_era doe) (day_of_year doe) ≡ place era (doe + 1)
within_era era doe h =
    let y = year_of_era doe in
    let y' = year_of_era (doe + 1) in
    let a = year_of_era_bounds doe (omega arith) in
    let b = year_of_era_bounds (doe + 1) h in
    elim (year_choice doe y y' a b) [
      | inl same ↦
          let (inside, moved) = within_year doe y a (subst (Lies (doe + 1)) same b) in
          let next : day_of_year (doe + 1) ≡ day_of_year doe + 1 =
            day_of_year-eq (doe + 1)
            ∙ (ap (day_in (doe + 1)) same ∙ (moved ∙ ap (λ d. d + 1) (sym (day_of_year-eq doe)))) in
          at-within (era * 400 + y) (day_of_year doe)
            (omega (arith, inside, same_length era y, day_of_year-eq doe))
          ∙ rw (same, next) refl
      | inr later ↦
          let (end, first) = next_year doe y a (subst (Lies (doe + 1)) later b) in
          let next : day_of_year (doe + 1) ≡ 0 =
            day_of_year-eq (doe + 1) ∙ (ap (day_in (doe + 1)) later ∙ first) in
          at-last (era * 400 + y) (day_of_year doe)
            (omega (arith, end, same_length era y, day_of_year-eq doe))
          ∙ rw (later, next) (ap (λ z. at z 0) (omega arith))
    ]

-- The last day of an era, and the first of the next.
between_eras :
    (era : ℕ) → following (era * 400 + year_of_era 146096) (day_of_year 146096) ≡ place (era + 1) 0
unfolding year_of_era day_of_year
between_eras era =
    at-last (era * 400 + 399) 365 (ap (λ n. n) (omega (arith, same_length era 399, leap_400)))
    ∙ ap (λ z. at z 0) (omega arith)
  where
    leap_400 : year_length (is_leap (399 + 1)) ≡ 366
    leap_400 = unfold is_leap in refl

-- A day count whose first sum is an i64.
days_to_ymd-place :
    (n : ℕ)
    → n + 719468 ≤ i64_max
    → days_to_ymd (pos n) ≡ place ((n + 719468) / 146097) ((n + 719468) % 146097)
unfolding days_to_ymd
days_to_ymd-place n h = let fits : leb (n + 719468) i64_max ≡ true = ground arith in rw fits refl

following-days :
    (n : ℕ)
    → n + 719468 < i64_max
    → let era = (n + 719468) / 146097 in
      let doe = (n + 719468) % 146097 in
      following (era * 400 + year_of_era doe) (day_of_year doe) ≡ days_to_ymd (pos (n + 1))
following-days n h =
    let era = (n + 719468) / 146097 in
    let doe = (n + 719468) % 146097 in
    let next = days_to_ymd-place (n + 1) (omega arith) in
    elim (dec_lt (doe + 1) 146097) [
      | yes inside ↦
          within_era era doe inside
          ∙ (ap (λ e. place e (doe + 1)) (omega arith)
              ∙ (ap (λ d. place ((n + 1 + 719468) / 146097) d) (omega arith) ∙ sym next))
      | no end ↦
          let last : doe ≡ 146096 = omega arith in
          ap (λ d. following (era * 400 + year_of_era d) (day_of_year d)) last
          ∙ (between_eras era
              ∙ (ap (λ e. place e 0) (omega arith)
                  ∙ (ap (λ d. place ((n + 1 + 719468) / 146097) d) (omega arith) ∙ sym next)))
    ]

pub record IsDate (y m d : ℕ) : Type 0 where
  pub month_in : (1 ≤ m) × (m ≤ 12)
  pub day_in : (1 ≤ d) × (d ≤ days_in_month (is_leap y) m)

at-IsDate :
    (y doy : ℕ)
    → doy < year_length (is_leap (y + 1))
    → IsDate (year_at y doy) (month_of (month_index doy)) (day_of_month doy)
at-IsDate y doy h =
    let fine = month_lem (is_leap (y + 1)) doy h in
    record {
      month_in = (ground (arith, fine), ground (arith, fine));
      day_in = (ground (arith, fine), ground (arith, fine, month_length y doy));
    }

in_year :
    (era doe : ℕ)
    → doe < 146097
    → day_of_year doe < year_length (is_leap (era * 400 + year_of_era doe + 1))
in_year era doe h =
    let y = year_of_era doe in
    let a = year_of_era_bounds doe h in
    omega (arith, a, leap_length y a.0, same_length era y, day_of_year-eq doe)

-- The years of an era that lies wholly before the year 0 are negative.
before_zero :
    (q doe : ℕ) → 0 < q → doe < 146097 → (k : ℕ) × ((from_era (negsuc q) doe).year ≡ negsuc k)
unfolding add scale
before_zero q doe h inside =
    let y = (year_of_era_bounds doe inside).0 in
    elim (Bool-cases (leb (month_of (month_index (day_of_year doe))) 2)) [
      | inl early ↦ (q * 400 + 399 - year_of_era doe - 1, ground (arith, y, early))
      | inr late ↦ (q * 400 + 399 - year_of_era doe, ground (arith, y, late))
    ]

-- A day count whose first sum is beyond the i64s.
days_to_ymd-overflow :
    (n : ℕ) → n ≤ i64_max → i64_max < n + 719468 → (k : ℕ) × ((days_to_ymd (pos n)).year ≡ negsuc k)
unfolding days_to_ymd
days_to_ymd-overflow n small beyond =
    let k = 2 ^ 64 - 1 - (n + 719468) in
    let wraps : leb (n + 719468) i64_max ≡ false = ground arith in
    rw wraps (before_zero (k / 146097) (146096 - k % 146097) (omega arith) (omega arith))

-- The count after one that is below the largest i64: the day after its date, or a negative year.
abbrev pub NextDay : ℕ → Type 0
NextDay n =
    ((y : ℕ) × (m : ℕ) × (d : ℕ) × (n + 719468 < i64_max)
      × IsDate y m d
      × (days_to_ymd (pos n) ≡ dated y m d)
      × (days_to_ymd (pos (n + 1)) ≡ next_date y m d))
    ⊎ ((k : ℕ) × (i64_max ≤ n + 719468) × ((days_to_ymd (pos (n + 1))).year ≡ negsuc k))

-- Day 0 is 1970-01-01. For each day count from there on that is below the largest i64: where 719468
-- more is still below it, the count is turned into a date of the Gregorian calendar, and the next
-- count into the day after it; otherwise the next count is turned into a date of a negative year, by
-- a sum that wraps around.
pub days_to_ymd-next_date :
    (n : ℕ) → n < i64_max → (days_to_ymd (pos 0) ≡ dated 1970 1 1) × NextDay n
days_to_ymd-next_date n small = (unfold days_to_ymd in refl, next)
  where
    next : NextDay n
    next =
        let era = (n + 719468) / 146097 in
        let doe = (n + 719468) % 146097 in
        let y = era * 400 + year_of_era doe in
        let doy = day_of_year doe in
        elim (dec_lt (n + 719468) i64_max) [
          | yes h ↦ inl (
            year_at y doy,
            month_of (month_index doy),
            day_of_month doy,
            h,
            at-IsDate y doy (in_year era doe (omega arith)),
            days_to_ymd-place n (omega arith) ∙ at-dated y doy,
            sym (following-days n h),
          )
          | no h ↦
              let (k, e) = days_to_ymd-overflow (n + 1) (omega arith) (omega arith) in
              inr (k, omega arith, e)
        ]
