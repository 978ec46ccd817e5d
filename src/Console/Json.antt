-- ===== src/Console/Json.antt =====
-- src/sinks/console-json-sink.cpp and its header: logs as JSON on std::cout.
use octo_logger_cpp.Prelude.{Bool, true, false, Option, none, some, [], ◌++◌, ◌>>=◌, ◌⊎◌, inl, inr}
use octo_logger_cpp.Prelude.Text.{Text, text_Eq, codes}
use octo_logger_cpp.Prelude.Int.{ℤ, negsuc}
use octo_logger_cpp.Prelude.Map.{insert_or_assign}
use octo_logger_cpp.Context.{ContextInfo}
use octo_logger_cpp.Config.SinkConfig.{
  SinkConfig, console_json_origin, console_json_host, console_json_service, console_json_indent,
  log_thread_id, option_default, option_default_int, option_default_bool,
}
use octo_logger_cpp.Channel.{Channel, Log}
use octo_logger_cpp.Sink.{
  Environment, Sink, LogJson, json, construct_log_json, formatted_log_plaintext_long,
}
use octo_logger_cpp.Sink

pub record ConsoleJsonSink : Type 0 where
  pub base : Sink
  pub host : Text
  pub service : Text
  pub indent : ℤ
  pub logs_thread_id : Bool

unfoldable pub make : SinkConfig → Option ConsoleJsonSink
make config = do
  base ← Sink.make config (option_default console_json_origin [] config) json
  indent ← option_default_int console_json_indent (negsuc 0) config
  thread ← option_default_bool log_thread_id false config
  some (record {
    base = base;
    host = option_default console_json_host [] config;
    service = option_default console_json_service [] config;
    indent = indent;
    logs_thread_id = thread;
  })

-- The JSON object of a log with the two keys that this sink adds.
pub record ConsoleLog : Type 0 where
  pub log_json : LogJson
  pub host_key : Text
  pub service_key : Text

-- log_json["context_info"]["thread_id"] = ...
abbrev pub with_thread_id : Environment → Bool → LogJson → LogJson
with_thread_id env false j = j
with_thread_id env true j = record j {
  context_info = insert_or_assign (codes "thread_id") env.thread_id j.context_info;
}

unfoldable pub console_log : Environment → LogJson → ConsoleJsonSink → ConsoleLog
console_log env j s = record {
  log_json = with_thread_id env s.logs_thread_id j;
  host_key = s.host;
  service_key = s.service;
}

-- What is written to std::cout and to std::cerr.
pub record Printed : Type 0 where
  pub cout : Text
  pub cerr : Text

-- dump(indent) of the JSON library: the text, or what() of its exception.
abbrev pub JsonDump : Type 0
JsonDump = ℤ → ConsoleLog → Text ⊎ Text

-- The catch clause, which writes the long line instead.
abbrev pub fallback : Text → Option Text → Option Printed
fallback what none = none
fallback what (some long) = some (record {
  cout = long ++ codes "\n";
  cerr = (codes "Failed to dump log to console in JSON format: " ++ what) ++ codes "\n";
})

abbrev pub printed : Text ⊎ Text → Option Text → Option Printed
printed (inl text) long = some (record { cout = text ++ codes "\n"; cerr = [] })
printed (inr what) long = fallback what long

abbrev pub print_json :
    Environment → JsonDump → ConsoleJsonSink → Option LogJson → Option Text → Option Printed
print_json env json_dump s none long = none
print_json env json_dump s (some j) long = printed (json_dump s.indent (console_log env j s)) long

abbrev pub if_streamed : Option Text → Option Printed → Option Printed
if_streamed none made = some (record { cout = []; cerr = [] })
if_streamed (some text) made = made

-- dump(log, channel, context_info, global_context_info). `none` is a log that cannot be formatted.
unfoldable pub dump :
    Environment
    → JsonDump
    → Log
    → Channel
    → ContextInfo
    → ContextInfo
    → ConsoleJsonSink
    → Option Printed
dump env json_dump log c ci global s = if_streamed log.stream (
    print_json env json_dump s (construct_log_json env s.base log c ci global)
      (formatted_log_plaintext_long env s.base log c ci global false))
