-- ===== src/Compat/Calendar.antt =====
-- The calendar, written without the code's arithmetic: days and seconds since 1970-01-01.
use octo_logger_cpp.Prelude.{
  ℕ, zero, suc, ◌+◌, ◌-◌, ◌*◌, ◌%◌, ◌≤◌, ◌<◌, Bool, ◌==◌, if◌then◌else◌, not, ◌&&◌, ◌||◌,
}
use octo_logger_cpp.Compat.{Tm}

-- The Gregorian rule.
abbrev pub is_leap : ℕ → Bool
is_leap y = y % 4 == 0 && (not (y % 100 == 0) || (y % 400 == 0))

-- Every fourth year, with no exception.
abbrev pub is_leap4 : ℕ → Bool
is_leap4 y = y % 4 == 0

module _ (leap : ℕ → Bool) where
  abbrev pub days_in_year : ℕ → ℕ
  days_in_year y = if leap y then 366 else 365

  -- Months are counted from 0.
  abbrev pub days_in_month : ℕ → ℕ → ℕ
  days_in_month y m =
      if m == 1
      then (if leap y then 29 else 28)
      else if (m == 3) || (m == 5) || (m == 8) || (m == 10)
      then 30
      else 31

  unfoldable pub days_before_month : ℕ → ℕ → ℕ
  days_before_month y zero = 0
  days_before_month y (suc m) = days_before_month y m + days_in_month y m

  -- The days of the n years from 1970 on.
  unfoldable pub days_of_years : ℕ → ℕ
  days_of_years zero = 0
  days_of_years (suc n) = days_of_years n + days_in_year (1970 + n)

  -- The second that a broken-down time names, counted from 1970-01-01 00:00:00.
  unfoldable pub seconds : Tm → ℕ
  seconds t =
      (((days_of_years (t.year - 70) + days_before_month (1900 + t.year) t.mon + (t.mday - 1)) * 24
              + t.hour)
            * 60
          + t.min)
        * 60
      + t.sec

  -- The fields are those of a date and a time of day.
  pub record IsValid (t : Tm) : Type 0 where
    pub year_in : 70 ≤ t.year
    pub mon_in : t.mon < 12
    pub mday_in : (1 ≤ t.mday) × (t.mday ≤ days_in_month (1900 + t.year) t.mon)
    pub hour_in : t.hour < 24
    pub min_in : t.min < 60
    pub sec_in : t.sec < 60
