-- ===== src/Compat/Gmtime.antt =====
-- gmtime_safe_internal gives the right date and time in the calendar where every fourth year is a
-- leap year, and so the Gregorian one up to the end of February 2100.
use octo_logger_cpp.Prelude.{
  ℕ, zero, suc, ◌+◌, ◌-◌, ◌*◌, ◌/◌, ◌%◌, ◌^◌, ◌≤◌, ◌<◌, ◌≡◌, Option, none, some, Bool, false, arith,
  ◌∙◌, refl, ltb, if◌then◌else◌, ◌==◌,
}
use octo_logger_cpp.Prelude.Int.{ℤ, pos, pos_part, ◌+ℤ◌, ◌*ℤ◌}
use octo_logger_cpp.Compat.{
  Tm, days, month_loop, year_loop, finish, set_day, after_years, split_time, gmtime_safe_internal,
  gmtime_safe,
}
use octo_logger_cpp.Compat.Calendar.{
  is_leap4, days_in_year, days_in_month, days_before_month, days_of_years, seconds, IsValid,
}
use octo_logger_cpp.Compat.Loops.{IsMonth, month_loop-IsMonth, IsYear, year_loop-IsYear}

-- February 29th pushes the later months back by a day.
pub leap_months :
    (leap : ℕ → Bool) (y m : ℕ)
    → days_before_month leap y m
      ≡ days_before_month (λ _. false) 0 m + (if ltb 1 m then (if leap y then 1 else 0) else 0)
unfolding days_before_month
leap_months leap y zero = refl
leap_months leap y (suc m) = ground (arith, leap_months leap y m)

months_mono : (m : ℕ) → 59 ≤ days_before_month (λ _. false) 0 (suc (suc m))
unfolding days_before_month
months_mono zero = omega arith
months_mono (suc m) = omega (arith, months_mono m)

-- The 60th day of a year without a February 29th is in March.
february :
    (m d : ℕ)
    → d ≤ days_in_month (λ _. false) 0 m
    → ((m ≤ 1) → days_before_month (λ _. false) 0 m + d ≤ 59)
      × ((2 ≤ m) → 59 ≤ days_before_month (λ _. false) 0 m)
unfolding days_before_month
february zero d h = omega arith
february (suc zero) d h = omega arith
february (suc (suc m)) d h = omega (arith, months_mono m)

-- What set_day has to find for the d-th day of the year of `tm`.
abbrev IsDay : Tm → ℕ → Option Tm → Type 0
IsDay tm d none = ⊥
IsDay tm d (some u) =
    (u.sec ≡ tm.sec)
    × (u.min ≡ tm.min)
    × (u.hour ≡ tm.hour)
    × (u.year ≡ tm.year)
    × (u.mon < 12)
    × (1 ≤ u.mday)
    × (u.mday ≤ days_in_month is_leap4 (1900 + tm.year) u.mon)
    × (days_before_month is_leap4 (1900 + tm.year) u.mon + u.mday ≡ d)

-- The month found for the t-th day of a common year, as a day of the year of `tm`.
finish-IsDay :
    (tm : Tm) (t d : ℕ) (r : Option (ℕ × ℕ))
    → IsMonth t r
    → d ≡ (if tm.year % 4 == 0 then (if ltb 59 t then t + 1 else t) else t)
    → IsDay tm d (finish tm r)
finish-IsDay tm t d none h e = h
finish-IsDay tm t d (some (m, k)) h e =
    ground (arith, leap_months is_leap4 (1900 + tm.year) m, february m k)

-- From `time++` on the function returns, with the month and the day.
set_day-IsDay :
    (tm : Tm) (d : ℕ)
    → 1 ≤ d
    → d ≤ days_in_year is_leap4 (1900 + tm.year)
    → IsDay tm d (set_day tm d)
unfolding set_day days_before_month
set_day-IsDay tm d lo hi = ground (
  arith,
  finish-IsDay tm d d (month_loop days 0 d),
  finish-IsDay tm (d - 1) d (month_loop days 0 (d - 1)),
  month_loop-IsMonth d,
  month_loop-IsMonth (d - 1),
)

-- The code's answer for the second t: the date and time that name it, in the calendar `leap`.
abbrev pub Names : (ℕ → Bool) → ℕ → Option Tm → Type 0
Names leap t none = ⊥
Names leap t (some u) = IsValid leap u × (seconds leap u ≡ t)

set_day-Names :
    (t : ℕ) (tm : Tm) (y h : ℕ) (r : Option Tm)
    → 70 ≤ y
    → h < days_in_year is_leap4 (1900 + y) * 24
    → days_of_years is_leap4 (y - 70) * 24 + h ≡ t / 60 / 60
    → tm.sec ≡ t % 60
    → tm.min ≡ t / 60 % 60
    → IsDay (record tm { year = y; hour = h % 24 }) (h / 24 + 1) r
    → Names is_leap4 t r
unfolding seconds
set_day-Names t tm y h none lo hi e es em d = d
set_day-Names t tm y h (some u) lo hi e es em d =
    let yr : u.year ≡ y = d.3 in
    let daysum : days_before_month is_leap4 (1900 + y) u.mon + u.mday ≡ h / 24 + 1 = d.7 in
    (
      record {
        year_in = omega arith;
        mon_in = d.4;
        mday_in = rw yr (d.5, d.6);
        hour_in = omega arith;
        min_in = omega arith;
        sec_in = omega arith;
      },
      rw (yr, d.0, d.1, d.2) (omega (arith, es, em)),
    )

after_years-Names :
    (t q : ℕ) (tm : Tm) (r : Option (ℕ × ℕ))
    → q * 1461 * 24 + t / 60 / 60 % (1461 * 24) ≡ t / 60 / 60
    → tm.sec ≡ t % 60
    → tm.min ≡ t / 60 % 60
    → IsYear q (t / 60 / 60 % (1461 * 24)) r
    → Names is_leap4 t (after_years tm r)
after_years-Names t q tm none e es em f = f
after_years-Names t q tm (some (y, h)) e es em f =
    let tm' : Tm = record tm { year = y; hour = h % 24 } in
    set_day-Names t tm y h (set_day tm' (h / 24 + 1)) (omega arith) f.1 (f.2 ∙ e) es em
      (set_day-IsDay tm' (h / 24 + 1) (omega arith) (omega arith))

split_time-Names : (t : ℕ) (tm : Tm) → t < 2 ^ 32 * 3600 → Names is_leap4 t (split_time t tm)
unfolding split_time
split_time-Names t tm h =
    let q : ℕ = t / 60 / 60 % 2 ^ 32 / (1461 * 24) in
    after_years-Names t q (record tm { sec = t % 60; min = t / 60 % 60 })
      (year_loop 4 (q * 4 + 70) (t / 60 / 60 % (1461 * 24))) (omega arith) refl refl
      (year_loop-IsYear q (t / 60 / 60 % (1461 * 24)) (omega arith))

utc : (z : ℤ) → z +ℤ pos 0 *ℤ pos 60 *ℤ pos 60 ≡ z
unfolding ◌+ℤ◌ ◌*ℤ◌
utc z = ground arith

-- For every time up to the 2^32nd hour after the epoch, gmtime_safe returns a valid date and time in
-- the calendar where every fourth year is a leap year, and it names that very second. A time before
-- the epoch is taken for the epoch.
pub gmtime_safe-Names4 :
    (z : ℤ) (tm : Tm) → pos_part z < 2 ^ 32 * 3600 → Names is_leap4 (pos_part z) (gmtime_safe z tm)
unfolding gmtime_safe gmtime_safe_internal
gmtime_safe-Names4 z tm h = rw (utc z) (split_time-Names (pos_part z) tm h)
