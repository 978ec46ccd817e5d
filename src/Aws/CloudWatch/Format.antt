-- ===== src/Aws/CloudWatch/Format.antt =====
-- The text and the stream of a log.
use octo_logger_cpp.Prelude.{
  ℕ, ◌/◌, ◌%◌, Bool, ◌||◌, Option, none, some, List, [], ◌∷◌, ◌++◌, if◌then◌else◌,
}
use octo_logger_cpp.Prelude.Text.{Text, text_Eq, codes, is_empty}
use octo_logger_cpp.Prelude.Int.{pos}
use octo_logger_cpp.Prelude.Map.{Map, insert_or_assign}
use octo_logger_cpp.Level.{level_to_string_upper}
use octo_logger_cpp.Compat.{Tm, zero_tm, localtime}
use octo_logger_cpp.Context.{ContextInfo}
use octo_logger_cpp.Channel.{Channel, Log}
use octo_logger_cpp.Sink.{Environment, LogJson, add_context_infos, stream_text, fill_3, or_zero}
use octo_logger_cpp.Aws.CloudWatch.{
  CloudWatchSink, CloudWatchLog, LogStreamType, by_channel, by_extra_id, by_both, unnamed,
  Variables, using_aws_lambda_logging,
}

abbrev pub stream_by : LogStreamType → Text → Text → Text → Text
stream_by by_channel channel id origin = channel
stream_by by_extra_id channel id origin = if is_empty id then origin else id
stream_by by_both channel id origin = if is_empty id then channel else (channel ++ codes "|") ++ id
stream_by (unnamed n) channel id origin = channel

abbrev pub variable_text : Option Text → Text
variable_text none = []
variable_text (some value) = value

unfoldable pub log_stream_name : {S : Type 0} → Variables → Log → Channel → CloudWatchSink S → Text
log_stream_name vars log c s =
    if using_aws_lambda_logging vars s
    then variable_text vars.stream_variable
    else stream_by s.log_stream_type c.channel_name log.extra_identifier s.base.origin

-- The loops over the context infos, session_id, and thread_id.
abbrev pub add_thread_id : Environment → Bool → Map Text Text → Map Text Text
add_thread_id env log_thread_id dst =
    if log_thread_id then insert_or_assign (codes "thread_id") env.thread_id dst else dst

abbrev pub add_all :
    Environment → Bool → Log → ContextInfo → ContextInfo → Map Text Text → Map Text Text
add_all env log_thread_id log ci global dst =
    add_thread_id env log_thread_id (add_context_infos log ci global dst)

unfoldable pub init_context_info :
    Environment → Bool → Log → ContextInfo → ContextInfo → Map Text Text
init_context_info env log_thread_id log ci global = add_all env log_thread_id log ci global []

abbrev pub json_of :
    Environment → Text → Log → Channel → Map Text Text → Tm → Option Text → Option LogJson
json_of env origin log c context_info tm none = none
json_of env origin log c context_info tm (some upper) = some (record {
  message = stream_text log.stream;
  json_origin = origin;
  origin_service_name = c.channel_name;
  timestamp =
      ((env.strftime (codes "%FT%T") tm ++ codes ".") ++ fill_3 (log.time_created % 1000))
      ++ env.strftime (codes "%z") tm;
  log_level = upper;
  origin_func_name = [];
  context_info = context_info;
})

-- The object of formatted_json, before it is dumped. `none` is a level without a name, at which the
-- program ends.
unfoldable pub formatted_json :
    {S : Type 0}
    → Environment
    → Log
    → Channel
    → ContextInfo
    → ContextInfo
    → CloudWatchSink S
    → Option LogJson
formatted_json env log c ci global s =
    json_of env s.base.origin log c (init_context_info env s.log_thread_id log ci global)
      (or_zero (
        localtime env.localtime_r (pos (log.time_created / 1000)) zero_tm
          s.base.safe_localtime_utc))
      (level_to_string_upper log.log_level)

-- A log for the queue, if its text and its stream are not empty; a dump() that throws makes none.
abbrev pub queued : Option Text → Text → ℕ → List CloudWatchLog
queued none name time = []
queued (some message) name time =
    if is_empty message || is_empty name
    then []
    else record {
      log_event = record { timestamp = time; event_message = message };
      stream_name = name;
    }
      ∷ []

abbrev pub queued_json : Environment → Text → ℕ → Option LogJson → Option (List CloudWatchLog)
queued_json env name time none = none
queued_json env name time (some j) = some (queued (env.json_dump j) name time)

-- What a log adds to the queue of a running sink.
unfoldable pub additions :
    {S : Type 0}
    → Environment
    → Variables
    → Log
    → Channel
    → ContextInfo
    → ContextInfo
    → CloudWatchSink S
    → Option (List CloudWatchLog)
additions env vars log c ci global s =
    queued_json env (log_stream_name vars log c s) log.time_created
      (formatted_json env log c ci global s)
