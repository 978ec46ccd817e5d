-- ===== src/Compat/Tests.antt =====
-- Runs of gmtime_safe, and the theorems at concrete times.
use octo_logger_cpp.Prelude.{◌≡◌, refl, some, none, true, arith}
use octo_logger_cpp.Prelude.Int.{pos, negsuc, ◌+ℤ◌, ◌*ℤ◌}
use octo_logger_cpp.Compat.{
  zero_tm, hours_per_year, year_loop, month_loop, set_day, split_time, gmtime_safe_internal,
  gmtime_safe, localtime,
}
use octo_logger_cpp.Compat.Calendar.{is_leap, is_leap4}
use octo_logger_cpp.Compat.Gmtime.{Names, gmtime_safe-Names4}
use octo_logger_cpp.Compat.Century.{gmtime_safe-Names, gmtime_safe_wrong}

gmtime_code : Unit {0}
unfolding hours_per_year year_loop month_loop set_day split_time gmtime_safe_internal gmtime_safe
    ◌+ℤ◌ ◌*ℤ◌
gmtime_code = tt

-- 2024-02-29 12:34:56
leap_day :
    gmtime_safe (pos 1709210096) zero_tm
    ≡ some (record zero_tm { sec = 56; min = 34; hour = 12; mday = 29; mon = 1; year = 124 })
unfolding gmtime_code
leap_day = refl

-- The year 2038 boundary.
boundary :
    gmtime_safe (pos 2147483647) zero_tm
    ≡ some (record zero_tm { sec = 7; min = 14; hour = 3; mday = 19; mon = 0; year = 138 })
unfolding gmtime_code
boundary = refl

before_epoch : gmtime_safe (negsuc 99) zero_tm ≡ some (record zero_tm { mday = 1; year = 70 })
unfolding gmtime_code
before_epoch = refl

safe_localtime :
    localtime (λ t r. none) (pos 0) zero_tm true ≡ some (record zero_tm { mday = 1; year = 70 })
unfolding gmtime_code localtime
safe_localtime = refl

gmtime_safe-Names4_example : Names is_leap4 1709210096 (gmtime_safe (pos 1709210096) zero_tm)
gmtime_safe-Names4_example = gmtime_safe-Names4 (pos 1709210096) zero_tm (omega arith)

gmtime_safe-Names_example : Names is_leap 1709210096 (gmtime_safe (pos 1709210096) zero_tm)
gmtime_safe-Names_example = gmtime_safe-Names (pos 1709210096) zero_tm (omega arith)

-- 2100-03-01 00:00:00
gmtime_safe_wrong_example : ¬ Names is_leap 4107542400 (gmtime_safe (pos 4107542400) zero_tm)
gmtime_safe_wrong_example = gmtime_safe_wrong (pos 4107542400) zero_tm (omega arith) (omega arith)
