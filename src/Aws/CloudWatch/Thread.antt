-- ===== src/Aws/CloudWatch/Thread.antt =====
-- The sending thread: its start, a round of its loop, and what it does at the end.
pub mod Batches
pub mod Rounds
pub mod Flush
use octo_logger_cpp.Prelude.{ℕ, zero, suc, List, [], ◌∷◌, length}
use octo_logger_cpp.Aws.CloudWatch.{Client, CloudWatchSink, CloudWatchLog, Variables}
use octo_logger_cpp.Aws.CloudWatch.Streams.{assert_and_create_log_group, list_existing_log_streams}
use octo_logger_cpp.Aws.CloudWatch.Sending.{insert, send_logs}

abbrev pub aws_logs_per_request_limit : ℕ
aws_logs_per_request_limit = 50

-- The inner loop, for so many logs: it moves them from the front of the queue into the multiset. The
-- answer is the multiset and the queue.
unfoldable pub take_batch :
    ℕ → List CloudWatchLog → List CloudWatchLog → List CloudWatchLog × List CloudWatchLog
take_batch zero queue logs = (logs, queue)
take_batch (suc n) [] logs = (logs, [])
take_batch (suc n) (x ∷ queue) logs = take_batch n queue (insert x logs)

module _ (C : Client) (vars : Variables) where
  -- Before the loop.
  unfoldable pub start : CloudWatchSink C.State → CloudWatchSink C.State
  start s =
      let made = assert_and_create_log_group C vars s in
      let r = list_existing_log_streams C vars made in record r.1 { existing_log_streams = r.0 }

  abbrev pub round_on : List CloudWatchLog → CloudWatchSink C.State → CloudWatchSink C.State
  round_on [] s = s
  round_on (x ∷ queue) s =
      let b = take_batch aws_logs_per_request_limit (x ∷ queue) [] in
      send_logs C vars b.0 (record s { logs_queue = b.1 })

  -- A round that finds the sink running, with the lock taken: after the wait, whether that ended by its
  -- condition or by the time.
  unfoldable pub round : CloudWatchSink C.State → CloudWatchSink C.State
  round s = round_on s.logs_queue s

  -- `while (!logs_queue_.empty())` at the end. The multiset is declared in front of the loop, and
  -- send_logs(std::move(logs)) does not empty it, since it takes a reference.
  unfoldable pub flush_loop :
      ℕ → List CloudWatchLog → List CloudWatchLog → CloudWatchSink C.State → CloudWatchSink C.State
  flush_loop zero queue logs s = record s { logs_queue = queue }
  flush_loop (suc fuel) [] logs s = record s { logs_queue = [] }
  flush_loop (suc fuel) (x ∷ queue) logs s =
      let b = take_batch aws_logs_per_request_limit (x ∷ queue) logs in
      flush_loop fuel b.1 b.0 (send_logs C vars b.0 (record s { logs_queue = b.1 }))

  -- After the loop; no round of this one leaves the queue as it was.
  unfoldable pub flush : CloudWatchSink C.State → CloudWatchSink C.State
  flush s = flush_loop (length s.logs_queue) s.logs_queue [] s
