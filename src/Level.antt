-- ===== src/Level.antt =====
-- include/octo-logger-cpp/log-level.hpp: the levels, their names, and the way back.
pub mod Names
mod Tests
use octo_logger_cpp.Prelude.{
  ℕ, ◌+◌, ◌-◌, ◌%◌, Bool, ◌&&◌, Option, none, some, List, [], ◌∷◌, ◌++◌, map, ltb, leb, ◌==◌,
  if◌then◌else◌,
}
use octo_logger_cpp.Prelude.Text.{Text, text_Eq, codes}
use octo_logger_cpp.Prelude.Map.{Map, find}
use octo_logger_cpp.Prelude.Result.{Result, ok, throw, runtime_error}

-- The enumeration has the underlying type uint8_t and can hold any value of it, as after
-- static_cast from an int: `unnamed` is a value without an enumerator.
pub data LogLevel : Type 0 where
  trace debug info notice warning error quiet : LogLevel
  unnamed : ℕ → LogLevel

-- static_cast<std::uint8_t>(level)
abbrev pub value : LogLevel → ℕ
value trace = 1
value debug = 2
value info = 4
value notice = 8
value warning = 16
value error = 32
value quiet = 255
value (unnamed n) = n

-- static_cast<LogLevel>(n), which keeps the low eight bits of n
unfoldable pub of_value : ℕ → LogLevel
of_value n =
    let v = n % 256 in
    if v == 1
    then trace
    else if v == 2
    then debug
    else if v == 4
    then info
    else if v == 8
    then notice
    else if v == 16
    then warning
    else if v == 32
    then error
    else if v == 255
    then quiet
    else unnamed v

-- The four tables. They are read by at() in a noexcept function, so a value with no name ends the
-- program (std::terminate): `none`.
unfoldable pub level_to_string : LogLevel → Option Text
level_to_string trace = some (codes "Trace")
level_to_string debug = some (codes "Debug")
level_to_string info = some (codes "Info")
level_to_string notice = some (codes "Notice")
level_to_string warning = some (codes "Warning")
level_to_string error = some (codes "Error")
level_to_string quiet = some (codes "Quiet")
level_to_string (unnamed n) = none

unfoldable pub level_to_string_lower : LogLevel → Option Text
level_to_string_lower trace = some (codes "trace")
level_to_string_lower debug = some (codes "debug")
level_to_string_lower info = some (codes "info")
level_to_string_lower notice = some (codes "notice")
level_to_string_lower warning = some (codes "warning")
level_to_string_lower error = some (codes "error")
level_to_string_lower quiet = some (codes "quiet")
level_to_string_lower (unnamed n) = none

unfoldable pub level_to_string_upper : LogLevel → Option Text
level_to_string_upper trace = some (codes "TRACE")
level_to_string_upper debug = some (codes "DEBUG")
level_to_string_upper info = some (codes "INFO")
level_to_string_upper notice = some (codes "NOTICE")
level_to_string_upper warning = some (codes "WARNING")
level_to_string_upper error = some (codes "ERROR")
level_to_string_upper quiet = some (codes "QUIET")
level_to_string_upper (unnamed n) = none

unfoldable pub level_to_string_short : LogLevel → Option Text
level_to_string_short trace = some (codes "T")
level_to_string_short debug = some (codes "D")
level_to_string_short info = some (codes "I")
level_to_string_short notice = some (codes "N")
level_to_string_short warning = some (codes "W")
level_to_string_short error = some (codes "E")
level_to_string_short quiet = some (codes "Q")
level_to_string_short (unnamed n) = none

-- std::toupper in the "C" locale
unfoldable pub to_upper : ℕ → ℕ
to_upper c = if leb b'a' c && leb c b'z' then c - 32 else c

abbrev pub level_names : Map Text LogLevel
level_names =
    (codes "TRACE", trace)
    ∷ (codes "Trace", trace)
    ∷ (codes "trace", trace)
    ∷ (codes "DEBUG", debug)
    ∷ (codes "Debug", debug)
    ∷ (codes "debug", debug)
    ∷ (codes "INFO", info)
    ∷ (codes "Info", info)
    ∷ (codes "info", info)
    ∷ (codes "NOTICE", notice)
    ∷ (codes "Notice", notice)
    ∷ (codes "notice", notice)
    ∷ (codes "WARNING", warning)
    ∷ (codes "Warning", warning)
    ∷ (codes "warning", warning)
    ∷ (codes "ERROR", error)
    ∷ (codes "Error", error)
    ∷ (codes "error", error)
    ∷ (codes "QUIET", quiet)
    ∷ (codes "Quiet", quiet)
    ∷ (codes "quiet", quiet)
    ∷ []

-- What string_to_level does after a first look-up that fails.
again : Text → Option LogLevel → Result LogLevel
again s (some l) = ok l
again s none = throw (runtime_error (codes "Invalid Log Level String [" ++ s ++ codes "]"))

normalized : Text → Option LogLevel → Result LogLevel
unfolding again
normalized s (some l) = ok l
normalized s none = again s (find (map to_upper s) level_names)

unfoldable pub string_to_level : Text → Result LogLevel
unfolding normalized
string_to_level s = normalized s (find s level_names)
