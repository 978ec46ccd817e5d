-- ===== src/UnitTests/ConsoleJson.antt =====
-- unittests/src/sinks/console-json-sink-tests.cpp: the objects that the console JSON sink makes. Where the tests
-- parse what is printed, these look at the object that is given to dump() of the JSON library.
mod Properties
use octo_logger_cpp.Prelude.{
  ◌≡◌, refl, ℕ, Bool, true, false, not, ◌&&◌, ◌||◌, Option, none, some, List, [], ◌∷◌, ◌⊎◌, inl,
  ◌>>=◌, if◌then◌else◌,
}
use octo_logger_cpp.Prelude.Text.{Text, text_Eq, text_eq, codes, is_empty}
use octo_logger_cpp.Prelude.Map.{Map, find, insert_or_assign}
use octo_logger_cpp.Prelude.Map
use octo_logger_cpp.Level.{LogLevel, level_to_string, level_to_string_upper}
use octo_logger_cpp.Compat.{localtime}
use octo_logger_cpp.Context.{ContextInfo}
use octo_logger_cpp.Config.SinkConfig.{
  SinkConfig, SinkOption, console_json_sink, console_json_host, console_json_service,
  console_json_origin, log_thread_id, set_option, set_option_bool, option, option_default,
  option_default_int, option_default_bool,
}
use octo_logger_cpp.Config.SinkConfig
use octo_logger_cpp.Channel.{Channel, Logger, Log, Heap, set_log_level, deref, c_string, until_nul}
use octo_logger_cpp.Manager.{Manager, new_manager, create_channel}
use octo_logger_cpp.Logger.{no_manager, instance_of, make_logger, make_log}
use octo_logger_cpp.Sink.{
  Environment, construct_log_json, add_missing, init_context_info, fill_3,
  formatted_log_plaintext_long,
}
use octo_logger_cpp.Sink
use octo_logger_cpp.Console.Json.{
  ConsoleJsonSink, ConsoleLog, Printed, JsonDump, make, console_log, dump,
}
use octo_logger_cpp.Prelude.Decimal.{
  read_int, read_signed, skip_spaces, read_unsigned, read_digits, int_text,
}

abbrev system : Environment
system = record {
  localtime_r = λ t tm. some tm;
  strftime = λ f tm. f;
  process_id = codes "7";
  thread_id = codes "139637976727232";
  json_dump = λ j. none;
}

-- The JSON library writes some text.
abbrev json_dump : JsonDump
json_dump indent j = inl (codes "{}")

-- LoggerMock with its channel at a level, and LogMock of it: the channel and the log.
abbrev made : Logger × Manager
made =
    make_logger record { bytes = codes "LoggerTest"; after = [] }
      (no_manager record { channel_heap = []; sink_heap = []; calls = []; released = [] })

abbrev log_in : Heap → LogLevel → Option (Channel × Log)
log_in heap level = do
  c ← deref made.0.channel_view heap
  id ← level_to_string level
  l ← make_log level id [] made.0 heap
  some (c, l)

abbrev log_mock : LogLevel → LogLevel → Option (Channel × Log)
log_mock channel_level level =
    log_in (set_log_level channel_level made.0.channel_view made.1.memory.channel_heap) level

abbrev pub default_config : SinkConfig
default_config = SinkConfig.make (codes "console_json_sink") console_json_sink

abbrev pub passes : Option Bool → Bool
passes none = false
passes (some b) = b

-- "Test no Log stream"
abbrev prints_nothing : LogLevel → Bool
prints_nothing level = passes (do
  (c, l) ← log_mock LogLevel.quiet level
  sink ← make default_config
  printed ← dump system json_dump l c [] [] sink
  some (is_empty printed.cout))

abbrev all_levels : (LogLevel → Bool) → List LogLevel → Bool
all_levels check [] = true
all_levels check (level ∷ levels) = check level && all_levels check levels

abbrev named : List LogLevel
named =
    LogLevel.trace ∷ LogLevel.debug ∷ LogLevel.info ∷ LogLevel.notice ∷ LogLevel.warning
    ∷ LogLevel.error ∷ []

-- The object that a sink makes of a log on an enabled level, once it has printed something.
abbrev if_printed : Printed → ConsoleLog → Option ConsoleLog
if_printed printed j = if is_empty printed.cout then none else some j

abbrev pub object_of : SinkConfig → LogLevel → ContextInfo → ContextInfo → Option ConsoleLog
object_of config level own global = do
  (c, l) ← log_mock level level
  sink ← make config
  printed ← dump system json_dump l c own global sink
  j ← construct_log_json system sink.base l c own global
  if_printed printed (console_log system j sink)

abbrev pub says_upper : Text → LogLevel → Bool
says_upper t level = passes (do upper ← level_to_string_upper level; some (text_eq t upper))

-- "Test default config"
abbrev has_defaults : LogLevel → Bool
has_defaults level = passes (do
  j ← object_of default_config level [] []
  some (
      is_empty j.host_key
      && is_empty j.service_key
      && is_empty j.log_json.json_origin
      && says_upper j.log_json.log_level level))

all_pass :
    (all_levels prints_nothing named
      && prints_nothing LogLevel.quiet
      && all_levels has_defaults named)
    ≡ true
unfolding make dump console_log Sink.make SinkConfig.make SinkConfig.has_option set_option
    set_option_bool option option_default option_default_int option_default_bool construct_log_json
    init_context_info add_missing fill_3 formatted_log_plaintext_long localtime level_to_string
    level_to_string_upper set_log_level c_string until_nul new_manager create_channel instance_of
    make_logger make_log find insert_or_assign Map.contains read_int read_signed skip_spaces
    read_unsigned read_digits int_text
all_pass = refl
