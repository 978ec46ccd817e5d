-- ===== src/Console/Tests.antt =====
-- Lines on the console, in colour, without, and as JSON.
use octo_logger_cpp.Prelude.{◌≡◌, refl, true, false, some, [], ◌++◌, inl}
use octo_logger_cpp.Prelude.Text.{codes}
use octo_logger_cpp.Prelude.Int.{negsuc}
use octo_logger_cpp.Level.{LogLevel, level_to_string_upper}
use octo_logger_cpp.Config.SinkConfig.{console_sink}
use octo_logger_cpp.Channel.{Channel, Log}
use octo_logger_cpp.Sink.{Environment, Sink, json, formatted_log, construct_log_json}
use octo_logger_cpp.Console.{ConsoleSink, color, configure_log_color, dump}
use octo_logger_cpp.Console.Colors.{NoEscape}
use octo_logger_cpp.Console.Json.{ConsoleJsonSink, console_log}
use octo_logger_cpp.Console.Json

abbrev system : Environment
system = record {
  localtime_r = λ t tm. some tm;
  strftime = λ f tm. codes "now";
  process_id = codes "7";
  thread_id = codes "8";
  json_dump = λ j. some j.message;
}

abbrev base : Sink
base = record {
  config = record { options = []; sink_type = console_sink; sink_name = codes "Console" };
  is_discarding = false;
  origin = [];
  format = json;
  safe_localtime_utc = false;
}

abbrev in_color : ConsoleSink
in_color = record {
  base = base;
  disable_console_color = false;
  disable_console_context_info = true;
}

abbrev net : Channel
net = record { channel_name = codes "net"; channel_level = LogLevel.info }

abbrev a_log : Log
a_log = record {
  stream = some (codes "up");
  log_level = LogLevel.error;
  time_created = 5;
  extra_identifier = [];
  log_context_info = [];
}

colored :
    dump system a_log net [] [] in_color
    ≡ some ((color (codes "31") ++ codes "up") ++ color (codes "39") ++ codes "\n")
unfolding dump formatted_log construct_log_json level_to_string_upper configure_log_color
colored = refl

as_json :
    Json.dump system
      (λ i j. inl j.host_key)
      a_log
      net
      []
      []
      (record {
        base = base;
        host = codes "h";
        service = [];
        indent = negsuc 0;
        logs_thread_id = true;
      })
    ≡ some (record { cout = codes "h\n"; cerr = [] })
unfolding Json.dump console_log construct_log_json level_to_string_upper
as_json = refl

no_escape : NoEscape (formatted_log system base a_log net [] [] true)
unfolding formatted_log construct_log_json level_to_string_upper
no_escape = (refl, (refl, tt))
