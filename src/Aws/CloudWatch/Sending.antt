-- ===== src/Aws/CloudWatch/Sending.antt =====
-- From a multiset of logs to the requests that put them.
pub mod Counts
pub mod Requests
pub mod Order
pub mod Delivery
use octo_logger_cpp.Prelude.{
  ℕ, Bool, true, false, Option, none, some, List, [], ◌∷◌, ◌++◌, length, ltb, if◌then◌else◌,
}
use octo_logger_cpp.Prelude.Text.{Text, text_Eq, codes, is_empty}
use octo_logger_cpp.Prelude.Decimal.{decimal}
use octo_logger_cpp.Prelude.Map.{Map, find, insert_or_assign}
use octo_logger_cpp.Aws.CloudWatch.{
  Client, CloudWatchSink, CloudWatchLog, LogEvent, PutLogEventsRequest, PutOutcome, accepted,
  refused, thrown, Variables, report_logger_error,
}
use octo_logger_cpp.Aws.CloudWatch.Streams.{with_client, assert_and_create_log_stream}

-- std::multiset::insert with LogEventCmp: behind the logs of the same time.
unfoldable pub insert : CloudWatchLog → List CloudWatchLog → List CloudWatchLog
insert x [] = x ∷ []
insert x (y ∷ logs) =
    if ltb x.log_event.timestamp y.log_event.timestamp then x ∷ y ∷ logs else y ∷ insert x logs

abbrev pub or_nil {ℓ} : {A : Type ℓ} → Option (List A) → List A
or_nil none = []
or_nil (some xs) = xs

-- log_events_map[stream_name].push_back(log_event)
unfoldable pub push_event : CloudWatchLog → Map Text (List LogEvent) → Map Text (List LogEvent)
push_event x m =
    insert_or_assign x.stream_name (or_nil (find x.stream_name m) ++ x.log_event ∷ []) m

unfoldable pub push_events :
    List CloudWatchLog → Map Text (List LogEvent) → Map Text (List LogEvent)
push_events [] m = m
push_events (x ∷ logs) m = push_events logs (push_event x m)

module _ (C : Client) where
  abbrev pub after_put :
      Text → ℕ → PutOutcome → CloudWatchSink C.State → Bool × CloudWatchSink C.State
  after_put name count (thrown what) s = (
    false,
    report_logger_error
        ((codes "Encountered an error while sending [" ++ decimal count) ++ codes "] log events")
        name what s,
  )
  after_put name count (refused error) s = (
    false,
    report_logger_error ((codes "Failed to put [" ++ decimal count) ++ codes "] log events") name
        error s,
  )
  after_put name count (accepted token) s = (
    true,
    if is_empty token
        then s
        else record s { sequence_tokens = insert_or_assign name token s.sequence_tokens },
  )

  abbrev pub request : Text → List LogEvent → CloudWatchSink C.State → PutLogEventsRequest
  request name events s = record {
    log_group = s.log_group_name;
    log_stream = name;
    log_events = events;
    sequence_token = find name s.sequence_tokens;
  }

  unfoldable pub put_request :
      PutLogEventsRequest → CloudWatchSink C.State → Bool × CloudWatchSink C.State
  put_request req s =
      let r = C.put_log_events s.client req in
      after_put req.log_stream (length req.log_events) r.0
        (record s { client = r.1; puts = s.puts ++ req ∷ [] })

  unfoldable pub send_log_events :
      Variables → Text → List LogEvent → CloudWatchSink C.State → Bool × CloudWatchSink C.State
  send_log_events vars name events s =
      let found = assert_and_create_log_stream C vars name s in
      put_request (request name events found) found

  unfoldable pub send_all :
      Variables → Map Text (List LogEvent) → CloudWatchSink C.State → CloudWatchSink C.State
  send_all vars [] s = s
  send_all vars ((name, events) ∷ m) s = send_all vars m (send_log_events vars name events s).1

  -- The logs come by reference and are only read, so the caller's multiset is as it was.
  unfoldable pub send_logs :
      Variables → List CloudWatchLog → CloudWatchSink C.State → CloudWatchSink C.State
  send_logs vars logs s = if s.base.is_discarding then s else send_all vars (push_events logs []) s
