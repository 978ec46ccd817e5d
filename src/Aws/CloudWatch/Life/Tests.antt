-- ===== src/Aws/CloudWatch/Life/Tests.antt =====
-- Runs of the CloudWatch sink, and the theorems at them.
use octo_logger_cpp.Prelude.{
  ◌≡◌, ◌≤◌, ◌+◌, ℕ, zero, suc, refl, ◌⊎◌, true, false, ◌||◌, none, List, [], ◌∷◌, length, take,
  Bool, All, arith,
}
use octo_logger_cpp.Prelude.Text.{text_Eq, codes}
use octo_logger_cpp.Prelude.Map.{find, insert_or_assign}
use octo_logger_cpp.Aws.CloudWatch.{
  CloudWatchLog, PutLogEventsRequest, using_aws_lambda_logging, report_logger_error,
}
use octo_logger_cpp.Aws.CloudWatch.Streams.{assert_and_create_log_stream, holds_name}
use octo_logger_cpp.Aws.CloudWatch.Streams.Asserted.{Known, assert_and_create_log_stream-Known}
use octo_logger_cpp.Aws.CloudWatch.Sending.{
  send_logs, send_all, send_log_events, put_request, push_events, push_event, insert,
}
use octo_logger_cpp.Aws.CloudWatch.Sending.Counts.{count, logs_of}
use octo_logger_cpp.Aws.CloudWatch.Sending.Order.{IsSorted}
use octo_logger_cpp.Aws.CloudWatch.Thread.{round, take_batch, flush, flush_loop}
use octo_logger_cpp.Aws.CloudWatch.Thread.Rounds.{
  rounds, RoundSends, round-RoundSends, rounds-SentOnce,
}
use octo_logger_cpp.Aws.CloudWatch.Thread.Flush.{SentOnce, flush-SentOnce, flush_twice}
use octo_logger_cpp.Aws.CloudWatch.Life.{stop}
use octo_logger_cpp.Aws.CloudWatch.Life.Runs.{Conserves, Run-Conserves}
use octo_logger_cpp.Aws.CloudWatch.Life.Stops.{IsStopped, Run-stop}
use octo_logger_cpp.Channel.{until_nul}
use octo_logger_cpp.Sink.Destination.{object, Filled}
use octo_logger_cpp.Aws.CloudWatch.Destination.{
  value_in, init_context_info_in, init_context_info_in-Filled,
}
use octo_logger_cpp.Aws.CloudWatch.Life.Sample.{
  a_log, counting, no_lambda, system, with_logs, at, added, one_logged,
}

abbrev two : List CloudWatchLog
two = at 5 (codes "b") ∷ at 3 (codes "a") ∷ []

-- So many logs, the times falling.
abbrev many : ℕ → List CloudWatchLog
many zero = []
many (suc n) = at n (codes "x") ∷ many n

runs : Unit {0}
unfolding round flush flush_loop take_batch insert send_logs send_all send_log_events put_request
    push_events push_event find insert_or_assign assert_and_create_log_stream
    using_aws_lambda_logging holds_name report_logger_error
runs =
    let sent : (round counting no_lambda (with_logs two)).puts
        ≡ record {
          log_group = codes "/octo";
          log_stream = codes "net";
          log_events =
              record { timestamp = 3; event_message = codes "a" }
              ∷ record { timestamp = 5; event_message = codes "b" }
              ∷ [];
          sequence_token = none;
        }
          ∷ [] =
      refl in
    let doubled : length (logs_of (flush counting no_lambda (with_logs (many 60))).puts) ≡ 110 =
      refl in
    tt

assert_and_create_log_stream-Known_example :
    ((((using_aws_lambda_logging no_lambda (with_logs two)) || holds_name (codes "net") []) ≡ true)
      × (assert_and_create_log_stream counting no_lambda (codes "net") (with_logs two)
          ≡ with_logs two))
    ⊎ (((using_aws_lambda_logging no_lambda (with_logs two) || holds_name (codes "net") []) ≡ false)
        × Known counting
            (codes "net")
            (with_logs two)
            (assert_and_create_log_stream counting no_lambda (codes "net") (with_logs two)))
assert_and_create_log_stream-Known_example =
    assert_and_create_log_stream-Known counting no_lambda (codes "net") (with_logs two)

round-RoundSends_example : RoundSends (with_logs two) (round counting no_lambda (with_logs two))
round-RoundSends_example = round-RoundSends counting no_lambda (with_logs two) refl

rounds-SentOnce_example : SentOnce (with_logs two) (rounds counting no_lambda 2 (with_logs two))
rounds-SentOnce_example = rounds-SentOnce counting no_lambda 2 (with_logs two) refl (omega arith)

flush-SentOnce_example : SentOnce (with_logs two) (flush counting no_lambda (with_logs two))
flush-SentOnce_example = flush-SentOnce counting no_lambda (with_logs two) refl (omega arith)

flush_twice_example :
    (reqs : List PutLogEventsRequest) × ((flush counting no_lambda (with_logs (many 60))).puts
      ≡ reqs)
    × ((f : CloudWatchLog → Bool)
        → count f (take 50 (many 60)) + count f (many 60) ≤ count f (logs_of reqs))
flush_twice_example = flush_twice counting no_lambda (with_logs (many 60)) refl (omega arith)

Run-Conserves_example : Conserves counting no_lambda system (with_logs []) added (with_logs added)
Run-Conserves_example = Run-Conserves counting no_lambda system (with_logs []) refl refl one_logged

Run-stop_example :
    IsStopped (stop counting no_lambda 7 false (with_logs added))
    × ((reqs : List PutLogEventsRequest) × ((stop counting no_lambda 7 false (with_logs added)).puts
          ≡ reqs)
        × ((f : CloudWatchLog → Bool) → count f (logs_of reqs) ≡ count f added)
        × All (λ (req : PutLogEventsRequest). IsSorted req.log_events) reqs)
Run-stop_example =
    Run-stop counting no_lambda system 7 (with_logs []) (with_logs added) added refl refl refl
      one_logged refl refl (omega arith)

-- The thread's id is there, and the destination's own value of "a" is kept.
init_context_info_in-Filled_example :
    Filled
      (value_in system true a_log [] ((codes "a", codes "1") ∷ []))
      (object ((codes "a", codes "9") ∷ []))
      (init_context_info_in system true a_log []
        ((codes "a", codes "1") ∷ [])
        (object ((codes "a", codes "9") ∷ [])))
unfolding until_nul
init_context_info_in-Filled_example =
    init_context_info_in-Filled system true a_log [] ((codes "a", codes "1") ∷ [])
      (object ((codes "a", codes "9") ∷ [])) tt tt (refl, tt)
