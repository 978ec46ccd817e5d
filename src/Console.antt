-- ===== src/Console.antt =====
-- src/sinks/console-sink.cpp and its header: logs in colour on std::cout.
pub mod Colors
pub mod Json
mod Tests
use octo_logger_cpp.Prelude.{Bool, true, false, Option, none, some, List, [], ◌∷◌, ◌++◌, ◌>>=◌}
use octo_logger_cpp.Prelude.Text.{Text, codes}
use octo_logger_cpp.Level.{LogLevel, trace, debug, info, notice, warning, error, quiet, unnamed}
use octo_logger_cpp.Context.{ContextInfo}
use octo_logger_cpp.Config.SinkConfig.{
  SinkConfig, console_disable_color, console_disable_context_info, option_default_bool,
}
use octo_logger_cpp.Channel.{Channel, Log}
use octo_logger_cpp.Sink.{
  Environment, Sink, plaintext_long, extract_format_with_default, formatted_log,
}
use octo_logger_cpp.Sink

pub record ConsoleSink : Type 0 where
  pub base : Sink
  pub disable_console_color : Bool
  pub disable_console_context_info : Bool

-- "\e" is the byte 27.
abbrev pub color : Text → Text
color digits = 27 ∷ (codes "[" ++ digits) ++ codes "m"

abbrev pub color_reset : Text
color_reset = color (codes "39")

-- What configure_log_color writes.
unfoldable pub configure_log_color : LogLevel → Text
configure_log_color trace = color (codes "32")
configure_log_color debug = color (codes "32")
configure_log_color info = color (codes "36")
configure_log_color notice = color (codes "34")
configure_log_color warning = color (codes "33")
configure_log_color error = color (codes "31")
configure_log_color quiet = []
configure_log_color (unnamed n) = []

unfoldable pub make : SinkConfig → Option ConsoleSink
make config = do
  format ← extract_format_with_default config plaintext_long
  base ← Sink.make config [] format
  no_color ← option_default_bool console_disable_color false config
  no_context ← option_default_bool console_disable_context_info true config
  some (record {
    base = base;
    disable_console_color = no_color;
    disable_console_context_info = no_context;
  })

-- A text that is left out if the colours are disabled.
abbrev pub unless : Bool → Text → Text
unless true text = []
unless false text = text

-- What is written for a log, from the text of it.
abbrev pub line : Bool → LogLevel → Option Text → Option Text
line no_color level none = none
line no_color level (some text) = some (
    ((unless no_color (configure_log_color level) ++ text) ++ unless no_color color_reset)
    ++ codes "\n")

abbrev pub if_streamed : Option Text → Option Text → Option Text
if_streamed none text = some []
if_streamed (some s) text = text

-- What dump(log, channel, context_info, global_context_info) writes to std::cout. `none` is a log that
-- cannot be formatted.
unfoldable pub dump :
    Environment → Log → Channel → ContextInfo → ContextInfo → ConsoleSink → Option Text
dump env log c ci global s = if_streamed log.stream (
    line s.disable_console_color log.log_level
      (formatted_log env s.base log c ci global s.disable_console_context_info))
