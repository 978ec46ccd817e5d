-- ===== src/Compat/Loops.antt =====
-- The two loops of gmtime_safe_internal: they end, and land on the right year and month.
use octo_logger_cpp.Prelude.{
  ℕ, zero, suc, ◌+◌, ◌-◌, ◌*◌, ◌%◌, ◌≤◌, ◌<◌, ◌≡◌, Option, none, some, false, arith, refl,
}
use octo_logger_cpp.Compat.{days, hours_per_year, year_loop, month_loop}
use octo_logger_cpp.Compat.Calendar.{
  is_leap4, days_in_year, days_in_month, days_before_month, days_of_years,
}

-- The month and the day in it, of the t-th day of a year whose February has 28 days.
abbrev pub IsMonth : ℕ → Option (ℕ × ℕ) → Type 0
IsMonth t none = ⊥
IsMonth t (some (m, d)) =
    (m < 12)
    × (1 ≤ d)
    × (d ≤ days_in_month (λ _. false) 0 m)
    × (days_before_month (λ _. false) 0 m + d ≡ t)

pub month_loop-IsMonth : (t : ℕ) → 1 ≤ t → t ≤ 365 → IsMonth t (month_loop days 0 t)
unfolding month_loop days_before_month
month_loop-IsMonth t lo hi = ground arith

-- The years of a period, in days.
days_of_four :
    (n : ℕ)
    → n % 4 ≡ 0
    → (days_of_years is_leap4 (suc n) ≡ days_of_years is_leap4 n + 365)
      × (days_of_years is_leap4 (suc (suc n)) ≡ days_of_years is_leap4 n + 730)
      × (days_of_years is_leap4 (suc (suc (suc n))) ≡ days_of_years is_leap4 n + 1096)
      × (days_of_years is_leap4 (suc (suc (suc (suc n)))) ≡ days_of_years is_leap4 n + 1461)
unfolding days_of_years
days_of_four n h = ground arith

days_of_periods : (q n : ℕ) → n ≡ q * 4 → days_of_years is_leap4 n ≡ q * 1461
unfolding days_of_years
days_of_periods zero n e = rw e
days_of_periods (suc q) n e =
    let step : n ≡ suc (suc (suc (suc (q * 4)))) = omega arith in
    rw step (omega (arith, days_of_periods q (q * 4) refl, days_of_four (q * 4) (omega arith)))

-- The days before each year of the period.
days_at :
    (q y : ℕ)
    → y ≡ q * 4 + 70
    → (days_of_years is_leap4 (y - 70) ≡ q * 1461)
      × (days_of_years is_leap4 (y + 1 - 70) ≡ q * 1461 + 365)
      × (days_of_years is_leap4 (y + 1 + 1 - 70) ≡ q * 1461 + 730)
      × (days_of_years is_leap4 (y + 1 + 1 + 1 - 70) ≡ q * 1461 + 1096)
days_at q y e =
    let e0 : y - 70 ≡ q * 4 = omega arith in
    let e1 : y + 1 - 70 ≡ suc (q * 4) = omega arith in
    let e2 : y + 1 + 1 - 70 ≡ suc (suc (q * 4)) = omega arith in
    let e3 : y + 1 + 1 + 1 - 70 ≡ suc (suc (suc (q * 4))) = omega arith in
    rw (e0, e1, e2, e3)
      (omega (arith, days_of_periods q (q * 4) refl, days_of_four (q * 4) (omega arith)))

-- The year, counted from 1900, and the hours in it, of the r-th hour of the q-th 4-year period.
abbrev pub IsYear : ℕ → ℕ → Option (ℕ × ℕ) → Type 0
IsYear q r none = ⊥
IsYear q r (some (y, t)) =
    (q * 4 + 70 ≤ y)
    × (t < days_in_year is_leap4 (1900 + y) * 24)
    × (days_of_years is_leap4 (y - 70) * 24 + t ≡ q * 1461 * 24 + r)

year_loop_at : (q r y : ℕ) → y ≡ q * 4 + 70 → r < 1461 * 24 → IsYear q r (year_loop 4 y r)
unfolding year_loop hours_per_year
year_loop_at q r y e h = ground (arith, days_at q y e)

-- The loop over the years ends within four rounds.
pub year_loop-IsYear : (q r : ℕ) → r < 1461 * 24 → IsYear q r (year_loop 4 (q * 4 + 70) r)
year_loop-IsYear q r h = year_loop_at q r (q * 4 + 70) refl h
