-- ===== src/Aws/CloudWatch/Life/Sample.antt =====
-- A CloudWatch sink with a client that always answers.
use octo_logger_cpp.Prelude.{◌+◌, ℕ, refl, true, false, some, none, List, [], ◌∷◌}
use octo_logger_cpp.Prelude.Text.{Text, text_Eq, codes}
use octo_logger_cpp.Level.{LogLevel, level_to_string_upper}
use octo_logger_cpp.Compat.{localtime}
use octo_logger_cpp.Config.SinkConfig.{custom_sink}
use octo_logger_cpp.Channel.{Channel, Log}
use octo_logger_cpp.Sink.{Environment, json}
use octo_logger_cpp.Aws.CloudWatch.{
  Client, CloudWatchSink, CloudWatchLog, success, failure, accepted, Variables, by_channel,
  using_aws_lambda_logging,
}
use octo_logger_cpp.Aws.CloudWatch.Format.{additions, formatted_json, log_stream_name}
use octo_logger_cpp.Aws.CloudWatch.Life.{dump}
use octo_logger_cpp.Aws.CloudWatch.Life.Runs.{Run, begun, logged}

-- Its state is the number of requests that it has answered.
abbrev pub counting : Client
counting = record {
  State = ℕ;
  describe_log_groups = λ n prefix. (success (prefix ∷ []), n + 1);
  create_log_group = λ n name tags. (success tt, n + 1);
  describe_log_streams = λ n group prefix. (success [], n + 1);
  create_log_stream = λ n group name. (failure (codes "denied"), n + 1);
  put_log_events = λ n req. (accepted (codes "t"), n + 1);
}

abbrev pub no_lambda : Variables
no_lambda = record { group_variable = none; stream_variable = none }

abbrev pub system : Environment
system = record {
  localtime_r = λ t tm. some tm;
  strftime = λ f tm. f;
  process_id = codes "7";
  thread_id = codes "8";
  json_dump = λ j. some j.message;
}

abbrev pub with_logs : List CloudWatchLog → CloudWatchSink ℕ
with_logs logs = record {
  base = record {
    config = record { options = []; sink_type = custom_sink; sink_name = codes "cloud" };
    is_discarding = false;
    origin = codes "o";
    format = json;
    safe_localtime_utc = false;
  };
  sequence_tokens = [];
  logs_queue = logs;
  existing_log_streams = [];
  log_stream_type = by_channel;
  is_running = true;
  log_group_name = codes "/octo";
  has_thread = true;
  log_group_tags = [];
  thread_pid = 7;
  allow_overriding_by_aws_lambda_log_env = false;
  log_thread_id = false;
  client = 0;
  puts = [];
  reports = [];
}

abbrev pub a_log : Log
a_log = record {
  stream = some (codes "up");
  log_level = LogLevel.error;
  time_created = 5;
  extra_identifier = [];
  log_context_info = [];
}

abbrev pub net : Channel
net = record { channel_name = codes "net"; channel_level = LogLevel.info }

abbrev pub at : ℕ → Text → CloudWatchLog
at time message = record {
  log_event = record { timestamp = time; event_message = message };
  stream_name = codes "net";
}

abbrev pub added : List CloudWatchLog
added = at 5 (codes "up") ∷ []

pub one_logged : Run counting no_lambda system (with_logs []) added (with_logs added)
unfolding additions dump formatted_json log_stream_name level_to_string_upper localtime
    using_aws_lambda_logging
one_logged = logged a_log net [] [] added (with_logs added) begun refl refl
