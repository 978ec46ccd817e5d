-- ===== src/Level/Tests.antt =====
-- Runs of the conversions of levels, and the theorems at concrete texts.
use octo_logger_cpp.Prelude.{◌≡◌, refl, ◌↔◌, some, map}
use octo_logger_cpp.Prelude.Text.{Text, codes}
use octo_logger_cpp.Prelude.Map.{find}
use octo_logger_cpp.Prelude.Result.{ok}
use octo_logger_cpp.Level.{
  debug, notice, warning, of_value, level_to_string_upper, level_to_string_short, to_upper, again,
  normalized, string_to_level,
}
use octo_logger_cpp.Level.Names.{string_to_level_iff}

abbrev mixed : Text
mixed = codes "wArNing"

mixed_case : string_to_level mixed ≡ ok warning
unfolding string_to_level again normalized find to_upper
mixed_case = refl

short_name : level_to_string_short notice ≡ some (codes "N")
unfolding level_to_string_short
short_name = refl

cast : of_value 258 ≡ debug
unfolding of_value
cast = refl

string_to_level_iff_example :
    (string_to_level mixed ≡ ok warning)
    ↔ (level_to_string_upper warning ≡ some (map to_upper mixed))
string_to_level_iff_example = string_to_level_iff mixed warning
