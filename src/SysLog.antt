-- ===== src/SysLog.antt =====
-- src/sinks/syslog-sink.cpp and its header: logs for the system's log.
use octo_logger_cpp.Prelude.{false, Option, none, some, [], ◌>>=◌}
use octo_logger_cpp.Prelude.Text.{Text, codes}
use octo_logger_cpp.Context.{ContextInfo}
use octo_logger_cpp.Config.SinkConfig.{SinkConfig, syslog_log_name, option_default}
use octo_logger_cpp.Channel.{Channel, Log, until_nul}
use octo_logger_cpp.Sink.{
  Environment, Sink, plaintext_short, extract_format_with_default, formatted_log,
}
use octo_logger_cpp.Sink

-- The C library's calls, over an unknown state: openlog with LOG_PID and LOG_CONS for LOG_AUTHPRIV, syslog
-- of a text as it stands with the priority LOG_INFO, and closelog.
pub record SystemLog : Type 1 where
  pub State : Type 0
  pub openlog : Text → State → State
  pub syslog : Text → State → State
  pub closelog : State → State

pub record SysLogSink : Type 0 where
  pub base : Sink
  pub sys_log_name : Text

unfoldable pub make : SinkConfig → Option SysLogSink
make config = do
  format ← extract_format_with_default config plaintext_short
  base ← Sink.make config [] format
  some (record {
    base = base;
    sys_log_name = option_default syslog_log_name (codes "octo-logger-cpp") config;
  })

module _ (L : SystemLog) where
  abbrev pub put_line : Text → L.State → Option Text → Option L.State
  put_line name st none = none
  put_line name st (some line) =
      some (L.closelog (L.syslog (until_nul line) (L.openlog (until_nul name) st)))

  abbrev pub if_streamed : Option Text → L.State → Option L.State → Option L.State
  if_streamed none st made = some st
  if_streamed (some text) st made = made

  -- dump(log, channel, context_info, global_context_info). `none` is a log that cannot be formatted.
  unfoldable pub dump :
      Environment
      → Log
      → Channel
      → ContextInfo
      → ContextInfo
      → SysLogSink
      → L.State
      → Option L.State
  dump env log c ci global s st =
      if_streamed log.stream st
        (put_line s.sys_log_name st (formatted_log env s.base log c ci global false))
