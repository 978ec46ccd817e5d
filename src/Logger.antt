-- ===== src/Logger.antt =====
-- src/logger.cpp, src/log.cpp, and the manager's instance in src/manager.cpp: loggers, and a log from its
-- construction by a logger, through what is streamed into it, to its destruction.
pub mod Writing
mod Tests
use octo_logger_cpp.Prelude.{
  ℕ, Bool, true, false, not, ◌&&◌, Option, none, some, List, [], ◌∷◌, ◌++◌, leb, ◌==◌,
  if◌then◌else◌,
}
use octo_logger_cpp.Prelude.Text.{Text, codes}
use octo_logger_cpp.Prelude.Result.{Result, ok, throw, runtime_error}
use octo_logger_cpp.Level.{LogLevel, value}
use octo_logger_cpp.Context.{ContextInfo, update_key, update, erase, contains, clear}
use octo_logger_cpp.Channel.{Channel, Heap, StringView, Logger, Log, deref}
use octo_logger_cpp.Manager.{Manager, Memory, new_manager, create_channel, dump, terminate}

-- The static pointer to the manager, and the memory that is there without one.
pub data Process : Type 0 where
  no_manager : Memory → Process
  managed : Manager → Process

unfoldable pub memory_of : Process → Memory
memory_of (no_manager mem) = mem
memory_of (managed m) = m.memory

abbrev pub logger_on : ℕ × Manager → Logger × Manager
logger_on (p, m) = (record { context_info = []; channel_view = p }, m)

abbrev pub global_name : StringView
global_name = record { bytes = codes "GLOBAL"; after = [] }

abbrev pub with_global : Logger × Manager → Manager
with_global (l, m) = record m { global_logger = some l }

-- Manager::instance(). Its lock does not matter here: one thread is looked at.
unfoldable pub instance_of : Process → Manager
instance_of (managed m) = m
instance_of (no_manager mem) =
    with_global (logger_on (create_channel global_name (new_manager mem)))

-- The last owner goes, so the destructor of Manager runs.
unfoldable pub reset_manager : Process → Process
reset_manager (no_manager mem) = no_manager mem
reset_manager (managed m) = no_manager (terminate m).memory

-- Logger(channel)
unfoldable pub make_logger : StringView → Process → Logger × Manager
make_logger name p = logger_on (create_channel name (instance_of p))

abbrev pub is_enabled : LogLevel → LogLevel → Bool
is_enabled level channel_level =
    leb (value channel_level) (value level) && not (value level == value LogLevel.quiet)

-- The constructor of Log. `none` is a logger whose channel is not in memory.
abbrev pub log_on : LogLevel → Text → ContextInfo → Option Channel → Option Log
log_on level id ci none = none
log_on level id ci (some c) = some (record {
  stream = if is_enabled level c.channel_level then some [] else none;
  log_level = level;
  time_created = 0;
  extra_identifier = id;
  log_context_info = ci;
})

unfoldable pub make_log : LogLevel → Text → ContextInfo → Logger → Heap → Option Log
make_log level id ci logger heap = log_on level id ci (deref logger.channel_view heap)

-- Logger::log, and with it trace, debug, info, notice, warning and error.
unfoldable pub log : LogLevel → Text → ContextInfo → Logger → Heap → Result (Option Log)
log (LogLevel.unnamed n) id ci logger heap = throw (runtime_error (codes "No log level"))
log level id ci logger heap = ok (make_log level id ci logger heap)

abbrev pub append_to : Option Text → Text → Option Text
append_to none value = none
append_to (some s) value = some (s ++ value)

-- operator<< of a value with this text, and formatted() and formattedf() that format to this text
unfoldable pub insert : Text → Log → Log
insert value l = record l { stream = append_to l.stream value }

unfoldable pub insert_all : List Text → Log → Log
insert_all [] l = l
insert_all (v ∷ vs) l = insert_all vs (insert v l)

-- Logger::dump_log
abbrev pub dump_on : Log → Logger → Manager → Option Channel → Option Manager
dump_on l logger m none = none
dump_on l logger m (some c) = some (dump l c logger.context_info m)

unfoldable pub dump_log : Log → Logger → Process → Option Manager
dump_log l logger p =
    let m = instance_of p in dump_on l logger m (deref logger.channel_view m.memory.channel_heap)

abbrev pub managed_if : Option Manager → Option Process
managed_if none = none
managed_if (some m) = some (managed m)

abbrev pub destroy_with : Option Text → ℕ → Logger → Log → Process → Option Process
destroy_with none now logger l p = some p
destroy_with (some s) now logger l p =
    managed_if (dump_log (record l { time_created = now }) logger p)

-- The destructor of Log, at the time `now`.
unfoldable pub destroy : ℕ → Logger → Log → Process → Option Process
destroy now logger l p = destroy_with l.stream now logger l p

abbrev pub write_log :
    ℕ → Logger → List Text → Process → Result (Option Log) → Result (Option Process)
write_log now logger values p (throw x) = throw x
write_log now logger values p (ok none) = ok none
write_log now logger values p (ok (some l)) = ok (destroy now logger (insert_all values l) p)

-- The statement `logger.log(level, id, ci) << value << ...;`
unfoldable pub write :
    ℕ → LogLevel → Text → ContextInfo → List Text → Logger → Process → Result (Option Process)
write now level id ci values logger p =
    write_log now logger values p (log level id ci logger (memory_of p).channel_heap)

-- The logger's own context info.
unfoldable pub add_context_key : Text → Text → Logger → Logger
add_context_key key value l = record l { context_info = update_key key value l.context_info }

unfoldable pub add_context_keys : ContextInfo → Logger → Logger
add_context_keys ci l = record l { context_info = update l.context_info ci }

unfoldable pub remove_context_key : Text → Logger → Logger
remove_context_key key l = record l { context_info = erase key l.context_info }

unfoldable pub has_context_key : Text → Logger → Bool
has_context_key key l = contains key l.context_info

unfoldable pub clear_context_info : Logger → Logger
clear_context_info l = record l { context_info = clear l.context_info }
