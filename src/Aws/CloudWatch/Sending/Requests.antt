-- ===== src/Aws/CloudWatch/Sending/Requests.antt =====
-- What send_logs does to the sink: one request for each stream, and the rest as it was.
use octo_logger_cpp.Prelude.{
  ℕ, ◌≡◌, refl, ap, sym, ◌∙◌, Bool, true, false, some, List, [], ◌∷◌, ◌++◌, append_assoc,
  append-nil, length, if◌then◌else◌, Bool-cases, inl, inr,
}
use octo_logger_cpp.Prelude.Text.{Text, text_Eq, text_eq, is_empty}
use octo_logger_cpp.Prelude.Map.{Map}
use octo_logger_cpp.Sink.{Sink}
use octo_logger_cpp.Aws.CloudWatch.{
  Client, CloudWatchSink, CloudWatchLog, LogEvent, PutLogEventsRequest, PutOutcome, accepted,
  refused, thrown, Outcome, success, failure, Variables, report_logger_error,
  using_aws_lambda_logging,
}
use octo_logger_cpp.Aws.CloudWatch.Streams.{
  with_client, holds_name, assert_and_create_log_stream, streams_described, stream_created,
  stream_names, create_stream, already_exists,
}
use octo_logger_cpp.Aws.CloudWatch.Sending.{
  request, put_request, after_put, send_log_events, send_all, send_logs, push_events,
}
use octo_logger_cpp.Aws.CloudWatch.Sending.Counts.{contents, contents-append}

-- The parts of the sink that the sending of logs does not write.
abbrev pub rest_of :
    {S : Type 0} → CloudWatchSink S → Sink × List CloudWatchLog × Bool × Text × Bool × ℕ
rest_of s = (s.base, s.logs_queue, s.is_running, s.log_group_name, s.has_thread, s.thread_pid)

-- From s to t requests for the given streams with the given events have been made, in order, and nothing
-- else has changed but tokens, known streams, reports and the service.
abbrev pub Sends :
    {S : Type 0} → Map Text (List LogEvent) → CloudWatchSink S → CloudWatchSink S → Type 0
Sends m s t =
    (reqs : List PutLogEventsRequest) × (t.puts ≡ s.puts ++ reqs)
    × (contents reqs ≡ m)
    × (rest_of t ≡ rest_of s)

Sends-nothing :
    {S : Type 0} (s t : CloudWatchSink S) → t.puts ≡ s.puts → rest_of t ≡ rest_of s → Sends [] s t
Sends-nothing s t p r = ([], p ∙ sym (append-nil s.puts), refl, r)

pub Sends-trans :
    {S : Type 0} (m n : Map Text (List LogEvent)) (s t u : CloudWatchSink S)
    → Sends m s t
    → Sends n t u
    → Sends (m ++ n) s u
Sends-trans m n s t u (a, p, x, r) (b, q, y, r') = (
  a ++ b,
  q ∙ ap (λ l. l ++ b) p ∙ append_assoc s.puts a b,
  contents-append a b ∙ ap (λ l. l ++ contents b) x ∙ ap (λ l. m ++ l) y,
  r' ∙ r,
)

module _ (C : Client) where
  -- Nothing is put, and only known streams, reports and the service change.
  abbrev Keeps : CloudWatchSink C.State → CloudWatchSink C.State → Type 0
  Keeps s t = (t.puts ≡ s.puts) × (rest_of t ≡ rest_of s)

  stream_created-Keeps :
      (name : Text) (o : Outcome (Unit {0})) (s : CloudWatchSink C.State)
      → Keeps s (stream_created C name o s)
  unfolding report_logger_error
  stream_created-Keeps name (success r) s = (refl, refl)
  stream_created-Keeps name (failure error) s =
      elim (Bool-cases (text_eq error (already_exists C))) [
        | inl y ↦ rw y (refl, refl)
        | inr n ↦ rw n (refl, refl)
      ]

  create_stream-Keeps :
      (name : Text) (s : CloudWatchSink C.State) → Keeps s (create_stream C name s)
  create_stream-Keeps name s =
      let r = C.create_log_stream s.client s.log_group_name name in
      stream_created-Keeps name r.0 (with_client r s)

  streams_described-Keeps :
      (name : Text) (o : Outcome (List (Text × Text))) (s : CloudWatchSink C.State)
      → Keeps s (streams_described C name o s)
  streams_described-Keeps name (failure error) s = create_stream-Keeps name s
  streams_described-Keeps name (success streams) s =
      elim (Bool-cases (holds_name name (stream_names streams))) [
        | inl y ↦ rw y (refl, refl)
        | inr n ↦ rw n (create_stream-Keeps name s)
      ]

  assert_and_create_log_stream-Keeps :
      (vars : Variables) (name : Text) (s : CloudWatchSink C.State)
      → Keeps s (assert_and_create_log_stream C vars name s)
  unfolding assert_and_create_log_stream
  assert_and_create_log_stream-Keeps vars name s =
      elim (Bool-cases (using_aws_lambda_logging vars s)) [
        | inl y ↦ rw y (refl, refl)
        | inr n ↦ elim (Bool-cases (holds_name name s.existing_log_streams)) [
          | inl y ↦ rw (n, y) (refl, refl)
          | inr k ↦
              let r = C.describe_log_streams s.client s.log_group_name (some name) in
              rw (n, k) (streams_described-Keeps name r.0 (with_client r s))
        ]
      ]

  after_put-Keeps :
      (name : Text) (n : ℕ) (o : PutOutcome) (s : CloudWatchSink C.State)
      → Keeps s (after_put C name n o s).1
  unfolding report_logger_error
  after_put-Keeps name n (thrown what) s = (refl, refl)
  after_put-Keeps name n (refused error) s = (refl, refl)
  after_put-Keeps name n (accepted token) s = elim (Bool-cases (is_empty token)) [
    | inl y ↦ rw y (refl, refl)
    | inr k ↦ rw k (refl, refl)
  ]

  put_request-Sends :
      (req : PutLogEventsRequest) (s : CloudWatchSink C.State)
      → Sends ((req.log_stream, req.log_events) ∷ []) s (put_request C req s).1
  unfolding put_request
  put_request-Sends req s =
      let r = C.put_log_events s.client req in
      let (p, k) =
        after_put-Keeps req.log_stream (length req.log_events) r.0
          (record s { client = r.1; puts = s.puts ++ req ∷ [] }) in
      (req ∷ [], p, refl, k)

  send_log_events-Sends :
      (vars : Variables) (name : Text) (events : List LogEvent) (s : CloudWatchSink C.State)
      → Sends ((name, events) ∷ []) s (send_log_events C vars name events s).1
  unfolding send_log_events
  send_log_events-Sends vars name events s =
      let found = assert_and_create_log_stream C vars name s in
      let (p, k) = assert_and_create_log_stream-Keeps vars name s in
      Sends-trans [] ((name, events) ∷ []) s found
        (put_request C (request C name events found) found).1 (Sends-nothing s found p k)
        (put_request-Sends (request C name events found) found)

  send_all-Sends :
      (vars : Variables) (m : Map Text (List LogEvent)) (s : CloudWatchSink C.State)
      → Sends m s (send_all C vars m s)
  unfolding send_all
  send_all-Sends vars [] s = Sends-nothing s s refl refl
  send_all-Sends vars ((name, events) ∷ m) s =
      let t = (send_log_events C vars name events s).1 in
      Sends-trans ((name, events) ∷ []) m s t (send_all C vars m t)
        (send_log_events-Sends vars name events s) (send_all-Sends vars m t)

  send_unless :
      (b : Bool) (vars : Variables) (m : Map Text (List LogEvent)) (s : CloudWatchSink C.State)
      → Sends (if b then [] else m) s (if b then s else send_all C vars m s)
  send_unless true vars m s = Sends-nothing s s refl refl
  send_unless false vars m s = send_all-Sends vars m s

  -- Unless it is discarding, the sink makes one request for each stream of the map.
  pub send_logs-Sends :
      (vars : Variables) (logs : List CloudWatchLog) (s : CloudWatchSink C.State)
      → Sends (if s.base.is_discarding then [] else push_events logs []) s (send_logs C vars logs s)
  unfolding send_logs
  send_logs-Sends vars logs s = send_unless s.base.is_discarding vars (push_events logs []) s
