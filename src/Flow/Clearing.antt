-- ===== src/Flow/Clearing.antt =====
-- A CloudWatch sink that configure clears without stopping it: its destructor does.
use octo_logger_cpp.Prelude.{
  ◌≡◌, ◌≤◌, ℕ, refl, sym, ap, ◌∙◌, subst, true, false, some, List, [], ◌∷◌, ◌++◌, length, drop,
  drop-append, ◌==◌, ==_iff, Bool-cases, inl, inr,
}
use octo_logger_cpp.Prelude.Int.{ℤ}
use octo_logger_cpp.Sink.{Environment, Sink, set_discarding}
use octo_logger_cpp.Config.ManagerConfig.{ManagerConfig}
use octo_logger_cpp.Manager.{SinkPtr, Manager, configure}
use octo_logger_cpp.Manager.Sinks.{configure_sinks}
use octo_logger_cpp.Aws.CloudWatch.{Client, CloudWatchSink, CloudWatchLog, Variables}
use octo_logger_cpp.Aws.CloudWatch.Life.{stop, stop_impl}
use octo_logger_cpp.Aws.CloudWatch.Life.Runs.{Run, Run-Conserves}
use octo_logger_cpp.Aws.CloudWatch.Life.Stops.{Run-stop}
use octo_logger_cpp.Flow.{given_up, released_since, among}
use octo_logger_cpp.Flow.Classes.{cloudwatch_class}
use octo_logger_cpp.Flow.Broadcast.{Registered}
use octo_logger_cpp.Flow.Terminating.{Sent}

among-middle : (p : SinkPtr) (before after : List SinkPtr) → among p (before ++ p ∷ after) ≡ true
unfolding among
among-middle p [] after = rw ((==_iff p p).1 refl) refl
among-middle p (q ∷ before) after = elim (Bool-cases (q == p)) [
  | inl y ↦ rw y refl
  | inr n ↦ rw (n, among-middle p before after) refl
]

-- The destructor of a sink that is not discarding does what stop does.
destroyed_as_stopped :
    (C : Client) (vars : Variables) (pid : ℕ) (t : CloudWatchSink C.State)
    → t.base.is_discarding ≡ false
    → stop C vars pid false t ≡ stop_impl C vars pid t
unfolding stop set_discarding
destroyed_as_stopped C vars pid t d =
    ap (λ b. stop_impl C vars pid (record t { base = record t.base { is_discarding = b } })) (sym d)

-- configure, told to clear the old sinks, gives up a CloudWatch sink that is registered once and has been run in
-- any way since it was running with an empty queue, not discarding, in the process of its thread. If nothing
-- else holds the sink and at most fifty logs wait in its queue, it is destroyed with that, and stops, and has
-- sent each log that was added just once, in each request in the order of their times.
configure-Sent :
    (C : Client) (vars : Variables) (env : Environment) (pid : ℕ) (m : Manager) (junk : ℤ)
    (config : ManagerConfig) (p : SinkPtr) (s t : CloudWatchSink C.State)
    (added : List CloudWatchLog)
    → Registered p m.sinks
    → s.is_running ≡ true
    → s.base.is_discarding ≡ false
    → s.logs_queue ≡ []
    → Run C vars env s added t
    → t.thread_pid ≡ pid
    → t.has_thread ≡ true
    → length t.logs_queue ≤ 50
    → Sent s added (
        some (
          given_up
            (cloudwatch_class C vars env pid)
            false
            p
            (released_since m (configure junk config true m))
            t))
configure-Sent C vars env pid m junk config p s t added (before, after, e, _, _) run d q r own has
      few =
    let gone : released_since m (configure junk config true m) ≡ before ++ p ∷ after =
      ap (λ l. drop (length m.memory.released) l) (configure_sinks m junk config true).3
      ∙ drop-append m.memory.released m.sinks
      ∙ e in
    let kept = Run-Conserves C vars env s run d r in
    let destroyed =
      destroyed_as_stopped C vars pid t (ap (λ (x : Sink). x.is_discarding) kept.1 ∙ d) in
    rw (gone, among-middle p before after)
      (subst (λ u. Sent s added (some u)) destroyed
        (Run-stop C vars env pid s t added run d q r own has few))
