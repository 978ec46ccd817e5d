-- ===== src/Manager/Threads/Tests.antt =====
-- Two threads in one manager: one logs while the other terminates the sinks.
use octo_logger_cpp.Prelude.{
  ◌≡◌, zero, suc, ◌≢◌, ◌≤◌, refl, sym, subst, arith, true, false, none, some, List, [], ◌∷◌,
}
use octo_logger_cpp.Prelude.Text.{codes}
use octo_logger_cpp.Level.{LogLevel}
use octo_logger_cpp.Channel.{Channel, Log}
use octo_logger_cpp.Manager.{Manager, child_on_fork}
use octo_logger_cpp.Manager.Threads.{
  Op, dump_op, replace_op, terminate_ops, lock_read, do_read, unlock_context, lock_sinks, call_one,
  lock_replace, Pc, idle, Shared, Move, System, Step, pick, Run, begun, later, start,
}
use octo_logger_cpp.Manager.Threads.Progress.{remaining}
use octo_logger_cpp.Manager.Threads.Finish.{Finishes, run_length, Run-Finishes}
use octo_logger_cpp.Manager.Threads.Fork.{Locks, reset_locks, child, child_on_fork-Finishes}

abbrev net : Channel
net = record { channel_name = codes "net"; channel_level = LogLevel.info }

abbrev manager : Manager
manager = record {
  channels = (codes "net", 0) ∷ [];
  sinks = 4 ∷ 7 ∷ [];
  config = record { sink_configs = []; custom_sinks = []; logger_options = [] };
  default_log_level = LogLevel.info;
  global_logger = none;
  global_context_info = (codes "a", codes "1") ∷ [];
  memory = record { channel_heap = net ∷ []; sink_heap = []; calls = []; released = [] };
}

abbrev a_log : Log
a_log = record {
  stream = some (codes "up");
  log_level = LogLevel.error;
  time_created = 5;
  extra_identifier = [];
  log_context_info = [];
}

abbrev programs : List (List Op)
programs = (dump_op a_log net [] ∷ []) ∷ (replace_op [] ∷ terminate_ops) ∷ []

-- The first thread has read the context info and made the call on one of the two sinks; the second has the
-- lock of the context info.
abbrev between : (s : System) × Run (start manager programs) s
between = (
  _,
  later
      (later
        (later
          (later (later (later begun (pick 0 _ refl (lock_read refl))) (pick 0 _ refl do_read))
            (pick 0 _ refl unlock_context))
          (pick 0 _ refl (lock_sinks refl)))
        (pick 0 _ refl call_one))
      (pick 1 _ refl (lock_replace refl)),
)

Run-Finishes_example :
    Finishes between.0 × (run_length between.1 ≤ remaining (start manager programs))
Run-Finishes_example = Run-Finishes manager programs between.0 between.1

-- The locks where the first thread of the parent is in a sink, and the second has the context info.
abbrev at_fork : Locks
at_fork = record {
  mutexes = true ∷ true ∷ [];
  sinks = record { mutex = 0; mutex_pid = 1 };
  context = record { mutex = 1; mutex_pid = 1 };
}

abbrev after_fork : Locks
after_fork = reset_locks false false 2 at_fork

child_on_fork-Finishes_example :
    (after_fork.sinks.mutex ≢ after_fork.context.mutex)
    × (child (child_on_fork manager) after_fork (dump_op a_log net [] ∷ [])
        ≡ start (child_on_fork manager) ((dump_op a_log net [] ∷ []) ∷ []))
    × Finishes (child (child_on_fork manager) after_fork (dump_op a_log net [] ∷ []))
child_on_fork-Finishes_example =
    child_on_fork-Finishes false false 2 at_fork manager (dump_op a_log net [] ∷ [])
      record { sinks_in = omega arith; context_in = omega arith; apart = λ e. omega (arith, e) }
      (λ e. omega (arith, e)) (λ e. omega (arith, e))

-- Without the reset the child would wait for ever.
abbrev left_alone : System
left_alone = child manager at_fork (dump_op a_log net [] ∷ [])

left_alone_waits : (t : System) → Step left_alone t → ⊥
left_alone_waits t (pick zero p {m = m} {q = q} at mv) =
    held (subst (λ p. Move 0 left_alone.shared p m q) (some_injective (sym at)) mv)
  where
    held :
        {m : Shared} {q : Pc} → Move 0 left_alone.shared (idle (dump_op a_log net [] ∷ [])) m q → ⊥
    held (lock_read free) = cc

    some_injective : {p q : Pc} → some p ≡ some q → p ≡ q
    some_injective e = cc
left_alone_waits t (pick (suc i) p at mv) = cc
