-- ===== src/TraceLogger/Tests.antt =====
-- A function that is traced, at a channel of level Trace.
use octo_logger_cpp.Prelude.{◌≡◌, ℕ, length, refl, some, none, Option, [], ◌∷◌}
use octo_logger_cpp.Prelude.Text.{codes}
use octo_logger_cpp.Prelude.Result.{Result, ok, throw}
use octo_logger_cpp.Level.{LogLevel}
use octo_logger_cpp.Channel.{Logger, until_nul}
use octo_logger_cpp.Manager.{Manager}
use octo_logger_cpp.Logger.{
  Process, managed, no_manager, write, log, destroy, dump_log, instance_of, memory_of, insert_all,
}
use octo_logger_cpp.TraceLogger.{TraceLogger, entered}
use octo_logger_cpp.Manager

abbrev manager : Manager
manager = record {
  channels = (codes "net", 0) ∷ [];
  sinks = 4 ∷ [];
  config = record { sink_configs = []; custom_sinks = []; logger_options = [] };
  default_log_level = LogLevel.info;
  global_logger = none;
  global_context_info = [];
  memory = record {
    channel_heap = record { channel_name = codes "net"; channel_level = LogLevel.trace } ∷ [];
    sink_heap = [];
    calls = [];
    released = [];
  };
}

abbrev function : TraceLogger
function = record { function = codes "f" }

abbrev logger : Logger
logger = record { context_info = []; channel_view = 0 }

abbrev calls_of : Result (Option Process) → ℕ
calls_of (throw x) = 0
calls_of (ok none) = 0
calls_of (ok (some (no_manager mem))) = 0
calls_of (ok (some (managed m))) = length m.memory.calls

one_call : calls_of (entered 1 function logger (managed manager)) ≡ 1
unfolding entered write log octo_logger_cpp.Logger.make_log memory_of destroy insert_all
    octo_logger_cpp.Logger.insert dump_log instance_of Manager.dump Manager.call_sinks until_nul
one_call = refl
