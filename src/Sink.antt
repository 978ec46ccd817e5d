-- ===== src/Sink.antt =====
-- src/sink.cpp and include/octo-logger-cpp/sink.hpp: what every sink has, and the texts it makes of a log.
pub mod Precedence
pub mod Destination
pub mod Formats
pub mod Reports
mod Tests
use octo_logger_cpp.Prelude.{
  ℕ, zero, suc, ◌-◌, ◌+◌, ◌/◌, ◌%◌, Bool, true, false, not, ◌&&◌, Option, none, some, List, [], ◌∷◌,
  ◌++◌, ltb, if◌then◌else◌,
}
use octo_logger_cpp.Prelude.Text.{Text, text_Eq, codes, is_empty}
use octo_logger_cpp.Prelude.Int.{ℤ, pos, negsuc}
use octo_logger_cpp.Prelude.Decimal.{decimal}
use octo_logger_cpp.Prelude.Map.{Map, insert_or_assign}
use octo_logger_cpp.Prelude.Map
use octo_logger_cpp.Level.{LogLevel, level_to_string_short, level_to_string_upper}
use octo_logger_cpp.Compat.{Tm, zero_tm, localtime}
use octo_logger_cpp.Context.{ContextInfo, empty}
use octo_logger_cpp.Config.SinkConfig.{
  SinkConfig, SinkOption, use_safe_localtime_utc, line_format, option_default_int,
  option_default_bool,
}
use octo_logger_cpp.Channel.{Channel, Log, until_nul}

-- Its underlying type is uint8_t: `illegal` is a value without an enumerator.
pub data LineFormat : Type 0 where
  plaintext_long plaintext_short json : LineFormat
  illegal : ℕ → LineFormat

pub record Sink : Type 0 where
  pub config : SinkConfig
  pub is_discarding : Bool
  pub origin : Text
  pub format : LineFormat
  pub safe_localtime_utc : Bool

-- Sink(config, origin, format). `none` is a flag that the reading of an option leaves without a value.
abbrev pub sink_with : SinkConfig → Text → LineFormat → Option Bool → Option Sink
sink_with config origin format none = none
sink_with config origin format (some safe) = some (record {
  config = config;
  is_discarding = false;
  origin = origin;
  format = format;
  safe_localtime_utc = safe;
})

unfoldable pub make : SinkConfig → Text → LineFormat → Option Sink
make config origin format =
    sink_with config origin format (option_default_bool use_safe_localtime_utc false config)

-- static_cast<LineFormat>, which keeps the low eight bits
abbrev pub format_of : ℕ → LineFormat
format_of zero = plaintext_long
format_of (suc zero) = plaintext_short
format_of (suc (suc zero)) = json
format_of (suc (suc (suc n))) = illegal (n + 3)

abbrev pub cast_format : Option ℤ → Option LineFormat
cast_format none = none
cast_format (some (pos n)) = some (format_of (n % 256))
cast_format (some (negsuc n)) = some (format_of (255 - n % 256))

abbrev pub format_number : LineFormat → ℕ
format_number plaintext_long = 0
format_number plaintext_short = 1
format_number json = 2
format_number (illegal n) = n

unfoldable pub extract_format_with_default : SinkConfig → LineFormat → Option LineFormat
extract_format_with_default config default_format =
    cast_format (option_default_int line_format (pos (format_number default_format)) config)

-- stop(discard), but for the virtual stop_impl
unfoldable pub set_discarding : Bool → Sink → Sink
set_discarding discard s = record s { is_discarding = discard }

-- The JSON object of a log; its keys in the order of the code.
pub record LogJson : Type 0 where
  pub message : Text
  pub json_origin : Text
  pub origin_service_name : Text
  pub timestamp : Text
  pub log_level : Text
  pub origin_func_name : Text
  pub context_info : Map Text Text

-- What the C library, the operating system and the JSON library do: localtime_r, strftime of a format,
-- getpid, the thread's id as a stream writes it, and dump() of an object (`none` if it throws, as for a
-- text that is not UTF-8).
pub record Environment : Type 0 where
  pub localtime_r : ℤ → Tm → Option Tm
  pub strftime : Text → Tm → Text
  pub process_id : Text
  pub thread_id : Text
  pub json_dump : LogJson → Option Text

-- std::setfill('0') << std::setw(3)
unfoldable pub fill_3 : ℕ → Text
fill_3 n =
    if ltb n 10
    then codes "00" ++ decimal n
    else if ltb n 100
    then codes "0" ++ decimal n
    else decimal n

abbrev pub bracketed : Text → Text
bracketed id = if is_empty id then [] else (codes "[" ++ id) ++ codes "]"

abbrev pub stream_text : Option Text → Text
stream_text none = []
stream_text (some s) = s

-- One `for` over a context info in formatted_context_info.
unfoldable pub entries_text : ContextInfo → Text
entries_text [] = []
entries_text ((key, value) ∷ ci) =
    ((((codes "[" ++ until_nul key) ++ codes ":") ++ value) ++ codes "]") ++ entries_text ci

unfoldable pub formatted_context_info : Log → ContextInfo → ContextInfo → Text
formatted_context_info log ci global =
    ((codes "context_info: " ++ entries_text log.log_context_info) ++ entries_text ci)
    ++ entries_text global

-- The part of a line behind the time: level, channel, and so on. `none` is a level without a name, at
-- which the program ends.
abbrev pub head_text : Text → Text → Log → Channel → Option Text → Option Text
head_text time ids log c none = none
head_text time ids log c (some short) = some (
    ((((time ++ codes "][") ++ short) ++ codes "][") ++ c.channel_name)
    ++ ((ids ++ bracketed log.extra_identifier) ++ codes ": ")
    ++ stream_text log.stream)

abbrev pub with_context : Bool → Text → Option Text → Option Text
with_context shown ci none = none
with_context shown ci (some line) = if shown then some ((line ++ codes "\n") ++ ci) else some line

abbrev pub long_with :
    Environment → Log → Channel → ContextInfo → ContextInfo → Bool → Option Tm → Option Text
long_with env log c ci global disable_context_info none = none
long_with env log c ci global disable_context_info (some tm) =
    with_context
      (not disable_context_info && not (empty ci && (empty log.log_context_info && empty global)))
      (formatted_context_info log ci global)
      (head_text
        ((env.strftime (codes "[%d/%m/%Y %H:%M:%S") tm ++ codes ".")
          ++ fill_3 (log.time_created % 1000))
        ((((codes "][PID(" ++ env.process_id) ++ codes ")][TID(") ++ env.thread_id) ++ codes ")]")
        log c (level_to_string_short log.log_level))

unfoldable pub formatted_log_plaintext_long :
    Environment → Sink → Log → Channel → ContextInfo → ContextInfo → Bool → Option Text
formatted_log_plaintext_long env s log c ci global disable_context_info =
    long_with env log c ci global disable_context_info
      (localtime env.localtime_r (pos (log.time_created / 1000)) zero_tm s.safe_localtime_utc)

unfoldable pub formatted_log_plaintext_short : Environment → Log → Channel → Option Text
formatted_log_plaintext_short env log c =
    head_text ((codes "[MS(" ++ fill_3 (log.time_created % 1000)) ++ codes ")")
      ((codes "][TID(" ++ env.thread_id) ++ codes ")]") log c (level_to_string_short log.log_level)

-- One `for` over a context info in init_context_info_impl: dst[key.data()] = value where there is no key.
unfoldable pub add_missing : ContextInfo → Map Text Text → Map Text Text
add_missing [] dst = dst
add_missing ((key, value) ∷ ci) dst =
    add_missing ci
      (if Map.contains key dst then dst else insert_or_assign (until_nul key) value dst)

-- The loops over the three context infos, and session_id.
abbrev pub add_context_infos : Log → ContextInfo → ContextInfo → Map Text Text → Map Text Text
add_context_infos log ci global dst =
    let all = add_missing global (add_missing ci (add_missing log.log_context_info dst)) in
    if is_empty log.extra_identifier
    then all
    else insert_or_assign (codes "session_id") log.extra_identifier all

unfoldable pub init_context_info : Log → ContextInfo → ContextInfo → Map Text Text
init_context_info log ci global = add_context_infos log ci global []

abbrev pub or_zero : Option Tm → Tm
or_zero none = zero_tm
or_zero (some tm) = tm

abbrev pub json_with :
    Environment
    → Sink
    → Log
    → Channel
    → ContextInfo
    → ContextInfo
    → Tm
    → Option Text
    → Option LogJson
json_with env s log c ci global tm none = none
json_with env s log c ci global tm (some upper) = some (record {
  message = stream_text log.stream;
  json_origin = s.origin;
  origin_service_name = c.channel_name;
  timestamp =
      ((env.strftime (codes "%FT%T") tm ++ codes ".") ++ fill_3 (log.time_created % 1000))
      ++ env.strftime (codes "%z") tm;
  log_level = upper;
  origin_func_name = [];
  context_info = init_context_info log ci global;
})

unfoldable pub construct_log_json :
    Environment → Sink → Log → Channel → ContextInfo → ContextInfo → Option LogJson
construct_log_json env s log c ci global =
    json_with env s log c ci global
      (or_zero
        (localtime env.localtime_r (pos (log.time_created / 1000)) zero_tm s.safe_localtime_utc))
      (level_to_string_upper log.log_level)

-- The two catch clauses fall back to the long line.
abbrev pub dumped : Option Text → Option Text → Option Text
dumped none long = long
dumped (some line) long = some line

abbrev pub dump_json : Environment → Option LogJson → Option Text → Option Text
dump_json env none long = none
dump_json env (some j) long = dumped (env.json_dump j) long

-- The switch over the line format, and the long line behind it.
abbrev pub by_format : LineFormat → Option Text → Option Text → Option Text → Option Text
by_format plaintext_long long short js = long
by_format plaintext_short long short js = short
by_format json long short js = js
by_format (illegal n) long short js = long

unfoldable pub formatted_log :
    Environment → Sink → Log → Channel → ContextInfo → ContextInfo → Bool → Option Text
formatted_log env s log c ci global disable_context_info =
    let long = formatted_log_plaintext_long env s log c ci global disable_context_info in
    by_format s.format long (formatted_log_plaintext_short env log c)
      (dump_json env (construct_log_json env s log c ci global) long)
