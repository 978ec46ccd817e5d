-- ===== src/Aws/CloudWatch/Life/Stops.antt =====
-- How the sink ends, in its own process and in a child, and what a restart leaves.
use octo_logger_cpp.Prelude.{
  ℕ, zero, suc, ◌≤◌, ◌≡◌, refl, ap, ◌∙◌, subst, Bool, true, false, not, ◌&&◌, List, [], ◌∷◌, ◌++◌,
  append_assoc, append-nil, length, ◌==◌, ==_iff, if◌then◌else◌, arith, All, All-append,
}
use octo_logger_cpp.Sink.{Environment, Sink, set_discarding}
use octo_logger_cpp.Aws.CloudWatch.{
  Client, CloudWatchSink, CloudWatchLog, PutLogEventsRequest, Variables,
}
use octo_logger_cpp.Aws.CloudWatch.Sending.{send_logs, push_events}
use octo_logger_cpp.Aws.CloudWatch.Sending.Counts.{
  count, logs_of, logs_in, contents, contents-append, count-logs_in-append,
}
use octo_logger_cpp.Aws.CloudWatch.Sending.Order.{IsSorted}
use octo_logger_cpp.Aws.CloudWatch.Sending.Requests.{Sends, send_logs-Sends}
use octo_logger_cpp.Aws.CloudWatch.Thread.{take_batch, flush_loop, flush}
use octo_logger_cpp.Aws.CloudWatch.Thread.Flush.{flush-SentOnce}
use octo_logger_cpp.Aws.CloudWatch.Life.{stop, stop_impl, stop_if, joined}
use octo_logger_cpp.Aws.CloudWatch.Life.Runs.{Run, Run-Conserves}

module _ (C : Client) (vars : Variables) where
  no_requests : (reqs : List PutLogEventsRequest) → contents reqs ≡ [] → reqs ≡ []
  no_requests [] e = refl
  no_requests (req ∷ reqs) e = cc

  discarded :
      (logs : List CloudWatchLog) (s : CloudWatchSink C.State)
      → s.base.is_discarding ≡ true
      → ((send_logs C vars logs s).puts ≡ s.puts) × ((send_logs C vars logs s).base ≡ s.base)
  discarded logs s d =
      let (reqs, p, e, r) =
        subst (λ b. Sends (if b then [] else push_events logs []) s (send_logs C vars logs s)) d
          (send_logs-Sends C vars logs s) in
      (p ∙ ap (λ l. s.puts ++ l) (no_requests reqs e) ∙ append-nil s.puts, ap (λ r. r.0) r)

  flush_loop_discarding :
      (fuel : ℕ) (queue logs : List CloudWatchLog) (s : CloudWatchSink C.State)
      → s.base.is_discarding ≡ true
      → (flush_loop C vars fuel queue logs s).puts ≡ s.puts
  unfolding flush_loop
  flush_loop_discarding zero queue logs s d = refl
  flush_loop_discarding (suc fuel) [] logs s d = refl
  flush_loop_discarding (suc fuel) (x ∷ queue) logs s d =
      let b = take_batch 50 (x ∷ queue) logs in
      let (p, same) = discarded b.0 (record s { logs_queue = b.1 }) d in
      flush_loop_discarding fuel b.1 b.0 (send_logs C vars b.0 (record s { logs_queue = b.1 }))
        (ap (λ (x : Sink). x.is_discarding) same ∙ d)
      ∙ p

  flush_loop_running :
      (fuel : ℕ) (queue logs : List CloudWatchLog) (s : CloudWatchSink C.State)
      → (flush_loop C vars fuel queue logs s).is_running ≡ s.is_running
  unfolding flush_loop
  flush_loop_running zero queue logs s = refl
  flush_loop_running (suc fuel) [] logs s = refl
  flush_loop_running (suc fuel) (x ∷ queue) logs s =
      let b = take_batch 50 (x ∷ queue) logs in
      let (reqs, p, e, r) = send_logs-Sends C vars b.0 (record s { logs_queue = b.1 }) in
      flush_loop_running fuel b.1 b.0 (send_logs C vars b.0 (record s { logs_queue = b.1 }))
      ∙ ap (λ r. r.2) r

  -- The sink, told to stop.
  abbrev told : Bool → CloudWatchSink C.State → CloudWatchSink C.State
  told discard s = record s { base = set_discarding discard s.base; is_running = false }

  stop_running :
      (pid : ℕ) (discard : Bool) (s : CloudWatchSink C.State)
      → s.is_running ≡ true
      → stop C vars pid discard s
        ≡ record (joined C vars (s.thread_pid == pid && s.has_thread) (told discard s)) {
          has_thread = false;
          logs_queue = [];
        }
  unfolding stop stop_impl
  stop_running pid discard s run =
      ap (λ b. stop_if C vars b pid (record s { base = set_discarding discard s.base })) run

  joined_puts :
      (owner discard : Bool) (s : CloudWatchSink C.State)
      → (owner && not discard) ≡ false
      → (joined C vars owner (told discard s)).puts ≡ s.puts
  unfolding flush set_discarding
  joined_puts false discard s h = refl
  joined_puts true true s h =
      flush_loop_discarding (length s.logs_queue) s.logs_queue [] (told true s) refl
  joined_puts true false s h = cc

-- The sink has stopped: no thread, nothing in the queue.
abbrev pub IsStopped : {S : Type 0} → CloudWatchSink S → Type 0
IsStopped s = (s.is_running ≡ false) × (s.has_thread ≡ false) × (s.logs_queue ≡ [])

joined_flag :
    (C : Client) (vars : Variables) (owner discard : Bool) (s : CloudWatchSink C.State)
    → (joined C vars owner (told C vars discard s)).is_running ≡ false
unfolding flush
joined_flag C vars false discard s = refl
joined_flag C vars true discard s =
    flush_loop_running C vars (length s.logs_queue) s.logs_queue [] (told C vars discard s)

-- Stopped in a child of the process that made it, or without its thread, or told to discard, a running
-- sink puts nothing: what waits in the queue is dropped.
pub stop_sends_nothing :
    (C : Client) (vars : Variables) (pid : ℕ) (discard : Bool) (s : CloudWatchSink C.State)
    → s.is_running ≡ true
    → ((s.thread_pid == pid && s.has_thread) && not discard) ≡ false
    → IsStopped (stop C vars pid discard s) × ((stop C vars pid discard s).puts ≡ s.puts)
stop_sends_nothing C vars pid discard s run h =
    let owner = s.thread_pid == pid && s.has_thread in
    rw (stop_running C vars pid discard s run)
      ((joined_flag C vars owner discard s, refl, refl), joined_puts C vars owner discard s h)

-- A sink that was running with nothing in its queue, and not discarding, is run in any way, and then
-- stopped in the process that its thread belongs to, and not told to discard: if at that time at most
-- fifty logs wait in the queue, then it has stopped, and the requests made since hold each log that was
-- added just once (as often as it was added), in each request in the order of their times.
pub Run-stop :
    (C : Client) (vars : Variables) (env : Environment) (pid : ℕ) (s t : CloudWatchSink C.State)
    (added : List CloudWatchLog)
    → s.is_running ≡ true
    → s.base.is_discarding ≡ false
    → s.logs_queue ≡ []
    → Run C vars env s added t
    → t.thread_pid ≡ pid
    → t.has_thread ≡ true
    → length t.logs_queue ≤ 50
    → let u = stop C vars pid false t in
      IsStopped u
      × ((reqs : List PutLogEventsRequest) × (u.puts ≡ s.puts ++ reqs)
          × ((f : CloudWatchLog → Bool) → count f (logs_of reqs) ≡ count f added)
          × All (λ (req : PutLogEventsRequest). IsSorted req.log_events) reqs)
unfolding set_discarding
Run-stop C vars env pid s t added run d empty r same there le =
    let (still, base, (reqs, p, c, k)) = Run-Conserves C vars env s run d r in
    let owner : (t.thread_pid == pid && t.has_thread) ≡ true =
      ground (arith, same, there, ==_iff t.thread_pid pid) in
    let end =
      stop_running C vars pid false t still
      ∙ ap
          (λ b. record (joined C vars b (told C vars false t)) {
            has_thread = false;
            logs_queue = [];
          })
          owner in
    let (nil, (more, q, n, o)) = flush-SentOnce C vars (told C vars false t) refl le in
    rw end (
      (joined_flag C vars true false t, refl, refl),
      (
        reqs ++ more,
        q ∙ ap (λ l. l ++ more) p ∙ append_assoc s.puts reqs more,
        (λ f. omega (
          arith,
          c f,
          n f,
          ap (count f) empty,
          ap (λ m. count f (logs_in m)) (contents-append reqs more),
          count-logs_in-append f (contents reqs) (contents more),
        )),
        All-append (λ (req : PutLogEventsRequest). IsSorted req.log_events) reqs more k o,
      ),
    )
