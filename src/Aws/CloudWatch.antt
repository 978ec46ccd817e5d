-- ===== src/Aws/CloudWatch.antt =====
-- src/aws/cloudwatch-sink.cpp and its header: the sink's state, the requests it makes, and the client of
-- AWS that answers them.
pub mod Format
pub mod Destination
pub mod Streams
pub mod Sending
pub mod Thread
pub mod Life
use octo_logger_cpp.Prelude.{ℕ, Bool, true, false, ◌&&◌, Option, none, some, List, [], ◌∷◌, ◌++◌}
use octo_logger_cpp.Prelude.Text.{Text}
use octo_logger_cpp.Prelude.Map.{Map, has}
use octo_logger_cpp.Sink.{Sink}

-- Aws::CloudWatchLogs::Model::InputLogEvent, its time in milliseconds.
pub record LogEvent : Type 0 where
  pub timestamp : ℕ
  pub event_message : Text

pub record CloudWatchLog : Type 0 where
  pub log_event : LogEvent
  pub stream_name : Text

-- Its underlying type is uint8_t: `unnamed` is a value without an enumerator.
pub data LogStreamType : Type 0 where
  by_channel by_extra_id by_both : LogStreamType
  unnamed : ℕ → LogStreamType

-- The names as the sink has them, before c_str().
pub record PutLogEventsRequest : Type 0 where
  pub log_group : Text
  pub log_stream : Text
  pub log_events : List LogEvent
  pub sequence_token : Option Text

-- An outcome of the client: a result, or the message of an error.
pub data Outcome {ℓ} (A : Type ℓ) : Type ℓ where
  success : A → Outcome A
  failure : Text → Outcome A

-- PutLogEvents answers the next sequence token; it may also throw, with what().
pub data PutOutcome : Type 0 where
  accepted : Text → PutOutcome
  refused : Text → PutOutcome
  thrown : Text → PutOutcome

-- Aws::CloudWatchLogs::CloudWatchLogsClient with the service behind it, of some unknown state. A stream is
-- described by its name and its upload sequence token. The names of groups and streams are given to it as the
-- sink has them: c_str(), which cuts them at a NUL on their way into a request, is left to the client.
pub record Client : Type 1 where
  pub State : Type 0
  pub describe_log_groups : State → Text → Outcome (List Text) × State
  pub create_log_group : State → Text → Map Text Text → Outcome (Unit {0}) × State
  pub describe_log_streams : State → Text → Option Text → Outcome (List (Text × Text)) × State
  pub create_log_stream : State → Text → Text → Outcome (Unit {0}) × State
  pub put_log_events : State → PutLogEventsRequest → PutOutcome × State

-- The two variables that AWS Lambda sets.
pub record Variables : Type 0 where
  pub group_variable : Option Text
  pub stream_variable : Option Text

-- report_logger_error: what is printed on stderr besides the sink's name and the process.
pub record Report : Type 0 where
  pub report_message : Text
  pub report_name : Text
  pub report_error : Text

-- The sink, with the client's state and what the sink has done so far: the PutLogEvents requests made
-- and the errors reported, both in order.
pub record CloudWatchSink (S : Type 0) : Type 0 where
  pub base : Sink
  pub sequence_tokens : Map Text Text
  pub logs_queue : List CloudWatchLog
  pub existing_log_streams : List Text
  pub log_stream_type : LogStreamType
  pub is_running : Bool
  pub log_group_name : Text
  pub has_thread : Bool
  pub log_group_tags : Map Text Text
  pub thread_pid : ℕ
  pub allow_overriding_by_aws_lambda_log_env : Bool
  pub log_thread_id : Bool
  pub client : S
  pub puts : List PutLogEventsRequest
  pub reports : List Report

unfoldable pub using_aws_lambda_logging : {S : Type 0} → Variables → CloudWatchSink S → Bool
using_aws_lambda_logging vars s =
    s.allow_overriding_by_aws_lambda_log_env
    && (has vars.group_variable && has vars.stream_variable)

unfoldable pub report_logger_error :
    {S : Type 0} → Text → Text → Text → CloudWatchSink S → CloudWatchSink S
report_logger_error message name error s = record s {
  reports =
      s.reports
      ++ record { report_message = message; report_name = name; report_error = error } ∷ [];
}
