-- ===== src/Aws/CloudWatch/Life.antt =====
-- The sink's public operations: dump, stop and restart_sink, in the process that made it or in a child.
pub mod Runs
pub mod Stops
pub mod Sample
mod Tests
use octo_logger_cpp.Prelude.{
  ℕ, Bool, true, false, not, ◌&&◌, ◌||◌, Option, none, some, List, [], ◌∷◌, ◌++◌, ◌==◌,
  if◌then◌else◌,
}
use octo_logger_cpp.Prelude.Text.{Text, codes}
use octo_logger_cpp.Prelude.Map.{Map}
use octo_logger_cpp.Context.{ContextInfo}
use octo_logger_cpp.Config.SinkConfig.{SinkConfig, log_thread_id, option_default_bool}
use octo_logger_cpp.Channel.{Channel, Log}
use octo_logger_cpp.Sink.{Environment, Sink, json, set_discarding}
use octo_logger_cpp.Sink
use octo_logger_cpp.Aws.CloudWatch.{
  Client, CloudWatchSink, CloudWatchLog, LogStreamType, Variables, using_aws_lambda_logging,
  report_logger_error,
}
use octo_logger_cpp.Aws.CloudWatch.Format.{additions}
use octo_logger_cpp.Aws.CloudWatch.Thread.{start, flush}

abbrev pub enqueued :
    {S : Type 0} → Option (List CloudWatchLog) → CloudWatchSink S → Option (CloudWatchSink S)
enqueued none s = none
enqueued (some logs) s = some (record s { logs_queue = s.logs_queue ++ logs })

-- By whether the sink is running.
abbrev pub dump_if :
    {S : Type 0} → Bool → Option (List CloudWatchLog) → CloudWatchSink S → Option (CloudWatchSink S)
dump_if false logs s = some s
dump_if true logs s = enqueued logs s

-- `none`: the program ends.
unfoldable pub dump :
    {S : Type 0}
    → Environment
    → Variables
    → Log
    → Channel
    → ContextInfo
    → ContextInfo
    → CloudWatchSink S
    → Option (CloudWatchSink S)
dump env vars log c ci global s = dump_if s.is_running (additions env vars log c ci global s) s

module _ (C : Client) (vars : Variables) where
  -- join(): the thread goes on to its end. In a child process the thread is not there and is let go.
  abbrev pub joined : Bool → CloudWatchSink C.State → CloudWatchSink C.State
  joined false s = s
  joined true s = flush C vars s

  abbrev pub stopped : ℕ → CloudWatchSink C.State → CloudWatchSink C.State
  stopped pid s =
      let ended = joined (s.thread_pid == pid && s.has_thread) (record s { is_running = false }) in
      record ended { has_thread = false; logs_queue = [] }

  abbrev pub stop_if : Bool → ℕ → CloudWatchSink C.State → CloudWatchSink C.State
  stop_if false pid s = s
  stop_if true pid s = stopped pid s

  unfoldable pub stop_impl : ℕ → CloudWatchSink C.State → CloudWatchSink C.State
  stop_impl pid s = stop_if s.is_running pid s

  -- Sink::stop
  unfoldable pub stop : ℕ → Bool → CloudWatchSink C.State → CloudWatchSink C.State
  stop pid discard s = stop_impl pid (record s { base = set_discarding discard s.base })

  -- A thread that is made runs its start; until then nothing but the queue and the flags is touched.
  abbrev pub restarted : ℕ → CloudWatchSink C.State → CloudWatchSink C.State
  restarted pid s =
      start C vars
        (record s { logs_queue = []; is_running = true; thread_pid = pid; has_thread = true })

  abbrev pub restart_if : Bool → ℕ → CloudWatchSink C.State → CloudWatchSink C.State
  restart_if false pid s =
      report_logger_error (codes "Requested to restart sink but sink is not running!")
        s.log_group_name [] s
  restart_if true pid s = restarted pid (stop_impl pid s)

  unfoldable pub restart_sink : ℕ → CloudWatchSink C.State → CloudWatchSink C.State
  restart_sink pid s = restart_if s.is_running pid s

  abbrev pub lambda_group : Option Text → Text → Text
  lambda_group none name = name
  lambda_group (some group) name = group

  -- log_thread_id || option_default(...), which is not read after `true`
  abbrev pub or_flag : Bool → Option Bool → Option Bool
  or_flag true flag = some true
  or_flag false flag = flag

  -- CloudWatchSink(...): `none` for an option that is left without a value.
  abbrev pub made :
      Option Sink
      → Option Bool
      → LogStreamType
      → Text
      → Map Text Text
      → Bool
      → ℕ
      → C.State
      → Option (CloudWatchSink C.State)
  made none flag type group tags allow pid client = none
  made (some base) none type group tags allow pid client = none
  made (some base) (some flag) type group tags allow pid client =
      let s : CloudWatchSink C.State = record {
        base = base;
        sequence_tokens = [];
        logs_queue = [];
        existing_log_streams = [];
        log_stream_type = type;
        is_running = true;
        log_group_name = group;
        has_thread = true;
        log_group_tags = tags;
        thread_pid = pid;
        allow_overriding_by_aws_lambda_log_env = allow;
        log_thread_id = flag;
        client = client;
        puts = [];
        reports = [];
      } in
      let t = start C vars s in
      some (
        if using_aws_lambda_logging vars s
        then record t { log_group_name = lambda_group vars.group_variable group }
        else t)

  unfoldable pub make :
      SinkConfig
      → Text
      → LogStreamType
      → Text
      → Map Text Text
      → Bool
      → Bool
      → ℕ
      → C.State
      → Option (CloudWatchSink C.State)
  make config origin type group tags allow thread_id pid client =
      made (Sink.make config origin json)
        (or_flag thread_id (option_default_bool log_thread_id false config)) type group tags allow
        pid client
