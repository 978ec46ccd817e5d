-- ===== src/Logger/Tests.antt =====
-- Logging statements, and the theorems at concrete ones.
use octo_logger_cpp.Prelude.{◌≡◌, refl, some, none, [], ◌∷◌, map, if◌then◌else◌}
use octo_logger_cpp.Prelude.Text.{text_Eq, codes}
use octo_logger_cpp.Prelude.Map.{find}
use octo_logger_cpp.Prelude.Result.{ok}
use octo_logger_cpp.Level.{LogLevel}
use octo_logger_cpp.Channel.{Channel, Logger}
use octo_logger_cpp.Manager.{Manager, dump_call, mute_channel}
use octo_logger_cpp.Logger.{managed, is_enabled, write}
use octo_logger_cpp.Logger.Writing.{finished, with_calls, write_lem, muted_silent}

abbrev net : Channel
net = record { channel_name = codes "net"; channel_level = LogLevel.info }

-- A manager with one channel, of level Info, and two sinks.
abbrev two_sinks : Manager
two_sinks = record {
  channels = (codes "net", 0) ∷ [];
  sinks = 0 ∷ 1 ∷ [];
  config = record { sink_configs = []; custom_sinks = []; logger_options = [] };
  default_log_level = LogLevel.info;
  global_logger = none;
  global_context_info = [];
  memory = record { channel_heap = net ∷ []; sink_heap = []; calls = []; released = [] };
}

abbrev logger : Logger
logger = record { context_info = []; channel_view = 0 }

write_lem_example :
    write 5 LogLevel.error [] [] (codes "a" ∷ codes "b" ∷ []) logger (managed two_sinks)
    ≡ ok (
        some (
          managed (
            with_calls
              (if is_enabled LogLevel.error LogLevel.info
                then map
                    (λ s. (
                      s,
                      dump_call
                          (finished 5 LogLevel.error [] [] (codes "a" ∷ codes "b" ∷ []))
                          net
                          []
                          [],
                    ))
                    (0 ∷ 1 ∷ [])
                else [])
              two_sinks)))
write_lem_example =
    write_lem 5 LogLevel.error [] [] (codes "a" ∷ codes "b" ∷ []) logger two_sinks net refl refl

muted_silent_example :
    write 5 LogLevel.error [] []
      (codes "a" ∷ [])
      logger
      (managed (mute_channel (codes "net") two_sinks).1)
    ≡ ok (some (managed (mute_channel (codes "net") two_sinks).1))
unfolding find
muted_silent_example =
    muted_silent 5 LogLevel.error [] [] (codes "a" ∷ []) logger two_sinks (codes "net") net refl
      refl refl
