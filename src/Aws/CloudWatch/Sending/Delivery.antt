-- ===== src/Aws/CloudWatch/Sending/Delivery.antt =====
-- send_logs as a delivery: what the requests hold, as often as the logs do, each in the order of time.
use octo_logger_cpp.Prelude.{
  ◌≡◌, refl, sym, subst, append-nil, Bool, false, List, [], ◌∷◌, ◌++◌, if◌then◌else◌, arith, All,
  All-append,
}
use octo_logger_cpp.Prelude.Text.{Text}
use octo_logger_cpp.Prelude.Map.{Map}
use octo_logger_cpp.Aws.CloudWatch.{
  Client, CloudWatchSink, CloudWatchLog, LogEvent, PutLogEventsRequest, Variables,
}
use octo_logger_cpp.Aws.CloudWatch.Sending.{send_logs, push_events}
use octo_logger_cpp.Aws.CloudWatch.Sending.Counts.{
  count, count-append, count-push_events, logs_in, count-logs_in-append, contents, logs_of,
}
use octo_logger_cpp.Aws.CloudWatch.Sending.Order.{IsOrdered, IsSorted, IsSorted-push_events}
use octo_logger_cpp.Aws.CloudWatch.Sending.Requests.{Sends, Sends-trans, send_logs-Sends}

abbrev AllSorted : Map Text (List LogEvent) → Type 0
AllSorted m = All (λ (entry : Text × List LogEvent). IsSorted entry.1) m

-- From s to t requests have been made that hold the logs, each as often as they do, and no others; the
-- events of each request stand in the order of their times.
abbrev pub Delivers :
    {S : Type 0} → List CloudWatchLog → CloudWatchSink S → CloudWatchSink S → Type 0
Delivers logs s t =
    (m : Map Text (List LogEvent)) × Sends m s t
    × ((f : CloudWatchLog → Bool) → count f (logs_in m) ≡ count f logs)
    × All (λ (entry : Text × List LogEvent). IsSorted entry.1) m

pub Delivers-nothing : {S : Type 0} (s : CloudWatchSink S) → Delivers [] s s
Delivers-nothing s = ([], ([], sym (append-nil s.puts), refl, refl), (λ f. refl), tt)

pub Delivers-trans :
    {S : Type 0} (a b : List CloudWatchLog) (s t u : CloudWatchSink S)
    → Delivers a s t
    → Delivers b t u
    → Delivers (a ++ b) s u
Delivers-trans a b s t u (m, h, c, o) (n, k, d, p) = (
  m ++ n,
  Sends-trans m n s t u h k,
  (λ f. omega (arith, count-logs_in-append f m n, count-append f a b, c f, d f)),
  All-append (λ (entry : Text × List LogEvent). IsSorted entry.1) m n o p,
)

pub send_logs-Delivers :
    (C : Client) (vars : Variables) (logs : List CloudWatchLog) (s : CloudWatchSink C.State)
    → s.base.is_discarding ≡ false
    → IsOrdered logs
    → Delivers logs s (send_logs C vars logs s)
send_logs-Delivers C vars logs s h o = (
  push_events logs [],
  subst (λ b. Sends (if b then [] else push_events logs []) s (send_logs C vars logs s)) h
      (send_logs-Sends C vars logs s),
  (λ f. omega (arith, count-push_events f logs [])),
  IsSorted-push_events logs o,
)

-- The requests between two states of the sink, as logs.
pub Delivers-logs :
    {S : Type 0} (logs : List CloudWatchLog) (s t : CloudWatchSink S)
    → Delivers logs s t
    → (reqs : List PutLogEventsRequest) × (t.puts ≡ s.puts ++ reqs)
      × ((f : CloudWatchLog → Bool) → count f (logs_of reqs) ≡ count f logs)
      × All (λ (req : PutLogEventsRequest). IsSorted req.log_events) reqs
Delivers-logs logs s t (m, (reqs, p, e, r), c, o) = (
  reqs,
  p,
  (λ f. rw e (c f)),
  sorted reqs (subst (λ n. All (λ (entry : Text × List LogEvent). IsSorted entry.1) n) (sym e) o),
)
  where
    sorted :
        (rs : List PutLogEventsRequest)
        → All (λ (entry : Text × List LogEvent). IsSorted entry.1) (contents rs)
        → All (λ (req : PutLogEventsRequest). IsSorted req.log_events) rs
    sorted [] k = tt
    sorted (req ∷ rs) k = (k.0, sorted rs k.1)
