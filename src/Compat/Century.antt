-- ===== src/Compat/Century.antt =====
-- The code's calendar against the Gregorian one: they part at 2100-02-29.
use octo_logger_cpp.Prelude.{
  ℕ, zero, suc, ◌+◌, ◌-◌, ◌*◌, ◌^◌, ◌≤◌, ◌<◌, ◌≡◌, Option, none, some, Bool, arith, ◌∙◌, ap, refl,
}
use octo_logger_cpp.Prelude.Int.{ℤ, pos_part}
use octo_logger_cpp.Compat.{Tm, gmtime_safe}
use octo_logger_cpp.Compat.Calendar.{
  is_leap, is_leap4, days_in_year, days_in_month, days_before_month, days_of_years, seconds,
  IsValid,
}
use octo_logger_cpp.Compat.Gmtime.{leap_months, Names, gmtime_safe-Names4}

-- 2100-03-01 00:00:00
abbrev pub march_2100 : ℕ
march_2100 = 4107542400

-- The days of n years in the two calendars: 2100 is the first year that differs.
years_gap :
    (n : ℕ)
    → (days_of_years is_leap n ≤ days_of_years is_leap4 n)
      × ((n ≤ 130) → days_of_years is_leap n ≡ days_of_years is_leap4 n)
      × ((131 ≤ n) → days_of_years is_leap n < days_of_years is_leap4 n)
unfolding days_of_years
years_gap zero = (omega arith, λ _. refl, λ h. absurd (omega arith))
years_gap (suc n) = ground (arith, years_gap n)

years_mono : (m k n : ℕ) → n ≡ k + m → days_of_years is_leap4 m ≤ days_of_years is_leap4 n
unfolding days_of_years
years_mono m zero n e = let e' : n ≡ m = omega arith in rw e' (omega arith)
years_mono m (suc k) n e =
    let e' : n ≡ suc (k + m) = omega arith in rw e' (omega (arith, years_mono m k (k + m) refl))

years_le : (m n : ℕ) → m ≤ n → days_of_years is_leap4 m ≤ days_of_years is_leap4 n
years_le m n h = years_mono m (n - m) n (omega arith)

-- The days before 2100-01-01 and 2101-01-01 in the code's calendar.
year_starts : (days_of_years is_leap4 130 ≡ 47482) × (days_of_years is_leap4 131 ≡ 47848)
unfolding days_of_years
year_starts = (refl, refl)

months_start :
    (leap : ℕ → Bool) (y m : ℕ)
    → ((m ≡ 0) → days_before_month leap y m ≡ 0)
      × ((m ≡ 1) → days_before_month leap y m ≡ 31)
      × ((2 ≤ m) → 59 ≤ days_before_month leap y m)
unfolding days_before_month
months_start leap y zero = omega arith
months_start leap y (suc zero) = omega arith
months_start leap y (suc (suc zero)) = ground arith
months_start leap y (suc (suc (suc m))) = ground (arith, months_start leap y (suc (suc m)))

months_mono :
    (leap : ℕ → Bool) (y m k n : ℕ)
    → n ≡ k + m
    → days_before_month leap y m ≤ days_before_month leap y n
unfolding days_before_month
months_mono leap y m zero n e = let e' : n ≡ m = omega arith in rw e' (omega arith)
months_mono leap y m (suc k) n e =
    let e' : n ≡ suc (k + m) = omega arith in
    rw e' (omega (arith, months_mono leap y m k (k + m) refl))

-- A day lies within its year.
months_end :
    (leap : ℕ → Bool) (y m : ℕ)
    → m < 12
    → days_before_month leap y m + days_in_month leap y m ≤ days_in_year leap y
unfolding days_before_month
months_end leap y m h = ground (arith, months_mono leap y (suc m) (11 - m) 12 (omega arith))

-- In every year before 2100 the two calendars have the same leap years.
leap_agrees : (y : ℕ) → 70 ≤ y → y < 200 → is_leap (1900 + y) ≡ is_leap4 (1900 + y)
leap_agrees y lo hi = ground arith

years_step :
    (y : ℕ)
    → y < 200
    → 70 ≤ y
    → days_of_years is_leap4 (y - 70) + days_in_year is_leap4 (1900 + y) ≤ 47482
unfolding days_of_years
years_step y h lo =
    let e : 1970 + (y - 70) ≡ 1900 + y = omega arith in
    omega
      (arith, years_le (suc (y - 70)) 130 (omega arith), year_starts, ap (days_in_year is_leap4) e)

-- What the two calendars say of one broken-down time.
module _ (t : ℕ) (u : Tm) (v : IsValid is_leap4 u) (e : seconds is_leap4 u ≡ t) where
  year_before : t < march_2100 → u.year ≤ 200
  unfolding seconds
  year_before h = ground (arith, years_le 131 (u.year - 70), year_starts, e, v.year_in)

  -- In 2100 only January and the first 28 days of February come before March.
  month_before : t < march_2100 → u.year ≡ 200 → (u.mon ≤ 1) × ((u.mon ≡ 1) → u.mday ≤ 28)
  unfolding seconds
  month_before h y =
      let n : days_of_years is_leap4 (u.year - 70) ≡ 47482 =
        ap (λ (k : ℕ). days_of_years is_leap4 (k - 70)) y ∙ year_starts.0 in
      ground (arith, e, n, months_start is_leap4 (1900 + u.year) u.mon, v.mday_in)

  before_march : t < march_2100 → Names is_leap t (some u)
  unfolding seconds
  before_march h = (
    record {
      year_in = v.year_in;
      mon_in = v.mon_in;
      mday_in =
          ground (arith, v.mday_in, year_before h, month_before h, leap_agrees u.year v.year_in);
      hour_in = v.hour_in;
      min_in = v.min_in;
      sec_in = v.sec_in;
    },
    ground (
      arith,
      e,
      year_before h,
      month_before h,
      v.year_in,
      leap_agrees u.year v.year_in,
      years_gap (u.year - 70),
      leap_months is_leap (1900 + u.year) u.mon,
      leap_months is_leap4 (1900 + u.year) u.mon,
    ),
  )

  year_after : march_2100 ≤ t → 200 ≤ u.year
  unfolding seconds
  year_after h = ground (
    arith,
    e,
    v.year_in,
    v.mday_in,
    v.hour_in,
    v.min_in,
    v.sec_in,
    years_step u.year,
    months_end is_leap4 (1900 + u.year) u.mon v.mon_in,
  )

  after_march : march_2100 ≤ t → ¬ Names is_leap t (some u)
  unfolding seconds
  after_march h (w, g) = ground (
    arith,
    e,
    g,
    year_after h,
    w.mday_in,
    v.mday_in,
    v.hour_in,
    v.min_in,
    v.sec_in,
    year_starts,
    years_gap (u.year - 70),
    leap_months is_leap (1900 + u.year) u.mon,
    leap_months is_leap4 (1900 + u.year) u.mon,
    months_start is_leap4 (1900 + u.year) u.mon,
  )

code_before : (t : ℕ) (r : Option Tm) → t < march_2100 → Names is_leap4 t r → Names is_leap t r
code_before t none h f = f
code_before t (some u) h f = before_march t u f.0 f.1 h

code_after : (t : ℕ) (r : Option Tm) → march_2100 ≤ t → Names is_leap4 t r → ¬ Names is_leap t r
code_after t none h f = absurd f
code_after t (some u) h f = after_march t u f.0 f.1 h

-- Up to the end of February 2100 gmtime_safe returns a valid Gregorian date and time, and it is the
-- one that names the given second since the epoch. (A time before the epoch is taken for it.)
pub gmtime_safe-Names :
    (z : ℤ) (tm : Tm) → pos_part z < march_2100 → Names is_leap (pos_part z) (gmtime_safe z tm)
gmtime_safe-Names z tm h =
    code_before (pos_part z) (gmtime_safe z tm) h (gmtime_safe-Names4 z tm (omega arith))

-- From 2100-03-01 on, up to the 2^32nd hour, gmtime_safe never returns the Gregorian date and time of
-- the given second: the code takes 2100 for a leap year.
pub gmtime_safe_wrong :
    (z : ℤ) (tm : Tm)
    → march_2100 ≤ pos_part z
    → pos_part z < 2 ^ 32 * 3600
    → ¬ Names is_leap (pos_part z) (gmtime_safe z tm)
gmtime_safe_wrong z tm h hi =
    code_after (pos_part z) (gmtime_safe z tm) h (gmtime_safe-Names4 z tm hi)
