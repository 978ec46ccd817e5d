-- ===== src/Flow/Classes.antt =====
-- The classes of sinks under src/sinks and src/aws, each with what it overrides.
use octo_logger_cpp.Prelude.{ℕ, some, ◌++◌, ◌>>=◌}
use octo_logger_cpp.Prelude.Text.{Text}
use octo_logger_cpp.Prelude.Int.{ℤ}
use octo_logger_cpp.Sink.{Environment, set_discarding}
use octo_logger_cpp.FileSink.{FileSystem, FileSink}
use octo_logger_cpp.FileSink.Streams
use octo_logger_cpp.Console.{ConsoleSink}
use octo_logger_cpp.Console
use octo_logger_cpp.Console.Json.{ConsoleJsonSink, JsonDump, Printed}
use octo_logger_cpp.Console.Json
use octo_logger_cpp.SysLog.{SystemLog, SysLogSink}
use octo_logger_cpp.SysLog
use octo_logger_cpp.Aws.CloudWatch.{Client, Variables, CloudWatchSink}
use octo_logger_cpp.Aws.CloudWatch.Life
use octo_logger_cpp.Flow.{SinkClass}

-- The file sink, with logs that come at the time `now`. It overrides dump alone, as the next three do, and has
-- a destructor.
abbrev pub file_class : FileSystem → Environment → ℤ → SinkClass
file_class F env now = record {
  Object = FileSink F.State;
  on_stop = λ discard s. record s { base = set_discarding discard s.base };
  on_dump = λ log c ci global s. Streams.dump F env now log c ci global s;
  on_restart = λ s. s;
  on_destroy = λ s. record s { file_system = Streams.close_all F s.current_files s.file_system };
}

-- The console sink, with what has been written to std::cout.
abbrev pub console_class : Environment → SinkClass
console_class env = record {
  Object = ConsoleSink × Text;
  on_stop = λ discard (s, out). (record s { base = set_discarding discard s.base }, out);
  on_dump = λ log c ci global (s, out).
      Console.dump env log c ci global s >>= λ text. some (s, out ++ text);
  on_restart = λ s. s;
  on_destroy = λ s. s;
}

abbrev pub printed_after : Printed → Printed → Printed
printed_after a b = record { cout = a.cout ++ b.cout; cerr = a.cerr ++ b.cerr }

abbrev pub console_json_class : Environment → JsonDump → SinkClass
console_json_class env json_dump = record {
  Object = ConsoleJsonSink × Printed;
  on_stop = λ discard (s, out). (record s { base = set_discarding discard s.base }, out);
  on_dump = λ log c ci global (s, out).
      Json.dump env json_dump log c ci global s >>= λ more. some (s, printed_after out more);
  on_restart = λ s. s;
  on_destroy = λ s. s;
}

abbrev pub syslog_class : SystemLog → Environment → SinkClass
syslog_class L env = record {
  Object = SysLogSink × L.State;
  on_stop = λ discard (s, st). (record s { base = set_discarding discard s.base }, st);
  on_dump =
      λ log c ci global (s, st). SysLog.dump L env log c ci global s st >>= λ st'. some (s, st');
  on_restart = λ s. s;
  on_destroy = λ s. s;
}

-- The CloudWatch sink in the process `pid`, which overrides stop_impl and restart_sink, too.
abbrev pub cloudwatch_class : Client → Variables → Environment → ℕ → SinkClass
cloudwatch_class C vars env pid = record {
  Object = CloudWatchSink C.State;
  on_stop = λ discard s. Life.stop C vars pid discard s;
  on_dump = λ log c ci global s. Life.dump env vars log c ci global s;
  on_restart = λ s. Life.restart_sink C vars pid s;
  on_destroy = λ s. Life.stop_impl C vars pid s;
}
