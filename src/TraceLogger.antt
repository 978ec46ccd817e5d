-- ===== src/TraceLogger.antt =====
-- include/octo-logger-cpp/trace-logger.hpp: a log where a function is entered and one where it is left.
mod Tests
use Prim.Native.String.{String}
use octo_logger_cpp.Prelude.{ℕ, Option, none, some, List, [], ◌∷◌}
use octo_logger_cpp.Prelude.Text.{Text, codes}
use octo_logger_cpp.Prelude.Result.{Result}
use octo_logger_cpp.Level.{LogLevel}
use octo_logger_cpp.Channel.{Logger, until_nul}
use octo_logger_cpp.Logger.{Process, write}

-- The logger is referred to, not copied, so it is an argument of what is done with it.
pub record TraceLogger : Type 0 where
  pub function : Text

abbrev marked : String → TraceLogger → List Text
marked mark t = codes mark ∷ until_nul t.function ∷ []

-- TraceLogger(function_name, logger), at the time `now`
unfoldable pub entered : ℕ → TraceLogger → Logger → Process → Result (Option Process)
entered now t logger p = write now LogLevel.trace [] [] (marked "++" t) logger p

-- ~TraceLogger(), at the time `now`
unfoldable pub left : ℕ → TraceLogger → Logger → Process → Result (Option Process)
left now t logger p = write now LogLevel.trace [] [] (marked "~~" t) logger p
