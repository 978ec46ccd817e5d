-- ===== src/Flow/Terminating.antt =====
-- The end of the manager, as far as the requests of a CloudWatch sink that is registered in it.
use octo_logger_cpp.Prelude.{
  ◌≡◌, ◌≤◌, ℕ, sym, ap, ◌∙◌, subst, Bool, true, false, Option, none, some, List, [], ◌++◌, map,
  length, drop, drop-append, All,
}
use octo_logger_cpp.Prelude.Result.{ok}
use octo_logger_cpp.Sink.{Environment}
use octo_logger_cpp.Manager.{SinkPtr, Manager, stop_call, terminate}
use octo_logger_cpp.Manager.Sinks.{terminate_lem}
use octo_logger_cpp.Logger.{managed}
use octo_logger_cpp.Aws.CloudWatch.{
  Client, CloudWatchSink, CloudWatchLog, PutLogEventsRequest, Variables,
}
use octo_logger_cpp.Aws.CloudWatch.Sending.Counts.{count, logs_of}
use octo_logger_cpp.Aws.CloudWatch.Sending.Order.{IsSorted}
use octo_logger_cpp.Aws.CloudWatch.Life.Runs.{Run}
use octo_logger_cpp.Aws.CloudWatch.Life.Stops.{IsStopped, Run-stop}
use octo_logger_cpp.Flow.{carry_out_all, calls_since}
use octo_logger_cpp.Flow.Classes.{cloudwatch_class}
use octo_logger_cpp.Flow.Broadcast.{Registered, Registered-carry_out}

-- The sink has stopped, and its requests since s hold each log that was added just as often.
abbrev pub Sent :
    {S : Type 0} → CloudWatchSink S → List CloudWatchLog → Option (CloudWatchSink S) → Type 0
Sent s added none = ⊥
Sent s added (some u) =
    IsStopped u
    × ((reqs : List PutLogEventsRequest) × (u.puts ≡ s.puts ++ reqs)
        × ((f : CloudWatchLog → Bool) → count f (logs_of reqs) ≡ count f added)
        × All (λ (req : PutLogEventsRequest). IsSorted req.log_events) reqs)

-- The calls that terminate makes stop a CloudWatch sink that is registered once and has been run in any way
-- since it was running with an empty queue, not discarding, in the process of its thread: if at most fifty
-- logs wait in its queue, it stops and has sent each log that was added just once, in each request in the
-- order of their times.
pub terminate-Sent :
    (C : Client) (vars : Variables) (env : Environment) (pid : ℕ) (m : Manager) (p : SinkPtr)
    (s t : CloudWatchSink C.State) (added : List CloudWatchLog)
    → Registered p m.sinks
    → s.is_running ≡ true
    → s.base.is_discarding ≡ false
    → s.logs_queue ≡ []
    → Run C vars env s added t
    → t.thread_pid ≡ pid
    → t.has_thread ≡ true
    → length t.logs_queue ≤ 50
    → Sent s added (
        carry_out_all
          (cloudwatch_class C vars env pid)
          p
          (calls_since m (ok (some (managed (terminate m)))))
          t)
terminate-Sent C vars env pid m p s t added r run d q h own has few =
    let K = cloudwatch_class C vars env pid in
    let calls =
      ap (drop (length m.memory.calls)) (terminate_lem m).0
      ∙ drop-append m.memory.calls (map (λ x. (x, stop_call false)) m.sinks) in
    subst (Sent s added)
      (sym (
        ap (λ l. carry_out_all K p l t) calls
        ∙ Registered-carry_out K p (stop_call false) m.sinks t r))
      (Run-stop C vars env pid s t added run d q h own has few)
