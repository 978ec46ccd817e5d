-- ===== src/Compat.antt =====
-- src/compat.cpp and include/octo-logger-cpp/compat.hpp: the lock-free gmtime.
pub mod Calendar
pub mod Loops
pub mod Gmtime
pub mod Century
mod Tests
use octo_logger_cpp.Prelude.{
  ℕ, zero, suc, ◌+◌, ◌-◌, ◌*◌, ◌/◌, ◌%◌, ◌^◌, Bool, Option, none, some, List, [], ◌∷◌, ltb, ◌==◌,
  if◌then◌else◌,
}
use octo_logger_cpp.Prelude.Int.{ℤ, pos, pos_part, ◌+ℤ◌, ◌*ℤ◌}

-- struct tm. Its fields are int; those that the code writes are never negative.
pub record Tm : Type 0 where
  pub sec : ℕ
  pub min : ℕ
  pub hour : ℕ
  pub mday : ℕ
  pub mon : ℕ
  pub year : ℕ
  pub wday : ℕ
  pub yday : ℕ
  pub isdst : ℕ

abbrev pub zero_tm : Tm
zero_tm = record {
  sec = 0;
  min = 0;
  hour = 0;
  mday = 0;
  mon = 0;
  year = 0;
  wday = 0;
  yday = 0;
  isdst = 0;
}

abbrev pub days : List ℕ
days = 31 ∷ 28 ∷ 31 ∷ 30 ∷ 31 ∷ 30 ∷ 31 ∷ 31 ∷ 30 ∷ 31 ∷ 30 ∷ 31 ∷ []

-- n32_hpery, for the year `year` counted from 1900
pub hours_per_year : ℕ → ℕ
hours_per_year year = if year % 4 == 0 then 365 * 24 + 24 else 365 * 24

-- The for (;;) loop over the years of a 4-year period, on fuel: the year and the hours left in it.
pub year_loop : ℕ → ℕ → ℕ → Option (ℕ × ℕ)
year_loop zero year time = none
year_loop (suc fuel) year time =
    let rest = year_loop fuel (year + 1) (time - hours_per_year year) in
    if ltb time (hours_per_year year) then some (year, time) else rest

-- The loop over Days from the month `mon` on. `none` is a read past the end of the table.
pub month_loop : List ℕ → ℕ → ℕ → Option (ℕ × ℕ)
month_loop [] mon time = none
month_loop (d ∷ ds) mon time =
    let rest = month_loop ds (mon + 1) (time - d) in if ltb d time then rest else some (mon, time)

-- The last part, from `tm_mon = 0` on.
abbrev pub finish : Tm → Option (ℕ × ℕ) → Option Tm
finish tm none = none
finish tm (some (mon, mday)) = some (record tm { mon = mon; mday = mday; isdst = 0 })

-- From `time++` on: `time` is the day of the year from 1. On February 29th the function returns
-- early, and tm_isdst keeps what it held.
pub set_day : Tm → ℕ → Option Tm
set_day tm time =
    if tm.year % 4 == 0
    then (if ltb 60 time
        then finish tm (month_loop days 0 (time - 1))
        else if time == 60
        then some (record tm { mon = 1; mday = 29 })
        else finish tm (month_loop days 0 time))
    else finish tm (month_loop days 0 time)

-- After the loop over the years.
abbrev pub after_years : Tm → Option (ℕ × ℕ) → Option Tm
after_years tm none = none
after_years tm (some (year, time)) =
    set_day (record tm { year = year; hour = time % 24 }) (time / 24 + 1)

-- From the first division on, with the `time` that is not negative. The cast to unsigned int keeps
-- the low 32 bits of the hours; `<< 2` and the sum stay far below 2 ^ 32.
pub split_time : ℕ → Tm → Option Tm
split_time time tm =
    let hours = time / 60 / 60 in
    let n32_Pass4year = hours % 2 ^ 32 / (1461 * 24) in
    after_years (record tm { sec = time % 60; min = time / 60 % 60 })
      (year_loop 4 (n32_Pass4year * 4 + 70) (hours % (1461 * 24)))

-- `time` and `timezone` are 64-bit; the sum is taken not to overflow.
unfoldable pub gmtime_safe_internal : ℤ → ℤ → Tm → Option Tm
gmtime_safe_internal time timezone tm =
    split_time (pos_part (time +ℤ timezone *ℤ pos 60 *ℤ pos 60)) tm

unfoldable pub gmtime_safe : ℤ → Tm → Option Tm
gmtime_safe time tm = gmtime_safe_internal time (pos 0) tm

-- localtime_r of the C library reads the process's time zone: it is the argument.
unfoldable pub localtime : (ℤ → Tm → Option Tm) → ℤ → Tm → Bool → Option Tm
localtime localtime_r timep result safe_utc =
    if safe_utc then gmtime_safe timep result else localtime_r timep result
