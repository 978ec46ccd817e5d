-- ===== src/Manager/Steps.antt =====
-- The manager's operations as steps, and the states that they lead to.
use octo_logger_cpp.Prelude.{ℕ, ◌<◌, Bool, List, [], ◌∷◌, ◌++◌, length, All}
use octo_logger_cpp.Prelude.Text.{Text}
use octo_logger_cpp.Prelude.Int.{ℤ}
use octo_logger_cpp.Level.{LogLevel}
use octo_logger_cpp.Context.{ContextInfo}
use octo_logger_cpp.Config.SinkConfig.{SinkConfig}
use octo_logger_cpp.Config.ManagerConfig.{ManagerConfig}
use octo_logger_cpp.Channel.{Channel, ChannelPtr, StringView, Log}
use octo_logger_cpp.Channel
use octo_logger_cpp.Manager.{
  Manager, Memory, with_heap, new_manager, create_channel, mute_channel, set_log_level, configure,
  terminate, stop, restart_sinks, clear_sinks, clear_channels, dump, replace_global_context_info,
  update_global_context_info, child_on_fork,
}

abbrev pub SinksKnown : List ℕ → Manager → Type 0
SinksKnown ss m = All (λ p. p < length m.memory.sink_heap) ss

-- Names that channels are made by: the views that create_channel is called with satisfy `Name`.
module _ (Name : StringView → Type 0) where
  -- One operation. `level_step` is set_log_level on a channel through a pointer that a logger holds, and
  -- `custom_step` the making of a sink outside of the manager.
  pub data Step : Manager → Manager → Type 0 where
    create_step : (m : Manager) (name : StringView) → Name name → Step m (create_channel name m).1
    mute_step : (m : Manager) (name : Text) → Step m (mute_channel name m).1
    set_step : (m : Manager) (l : LogLevel) → Step m (set_log_level l m)
    configure_step :
        (m : Manager) (junk : ℤ) (c : ManagerConfig) (clear_old_sinks : Bool)
        → SinksKnown c.custom_sinks m
        → Step m (configure junk c clear_old_sinks m)
    terminate_step : (m : Manager) → Step m (terminate m)
    stop_step : (m : Manager) (discard : Bool) → Step m (stop discard m)
    restart_step : (m : Manager) → Step m (restart_sinks m)
    clear_sinks_step : (m : Manager) → Step m (clear_sinks m)
    clear_channels_step : (m : Manager) → Step m (clear_channels m)
    dump_step : (m : Manager) (l : Log) (c : Channel) (ci : ContextInfo) → Step m (dump l c ci m)
    replace_step : (m : Manager) (ci : ContextInfo) → Step m (replace_global_context_info ci m)
    update_step : (m : Manager) (ci : ContextInfo) → Step m (update_global_context_info ci m)
    fork_step : (m : Manager) → Step m (child_on_fork m)
    level_step :
        (m : Manager) (l : LogLevel) (p : ChannelPtr)
        → Step m (with_heap (Channel.set_log_level l p m.memory.channel_heap) m)
    custom_step :
        (m : Manager) (c : SinkConfig)
        → Step m
            (record m { memory = record m.memory { sink_heap = m.memory.sink_heap ++ c ∷ [] } })

  -- The states that a manager comes to, made in whatever memory.
  pub data Reachable : Manager → Type 0 where
    made : (mem : Memory) → Reachable (new_manager mem)
    after : {m n : Manager} → Reachable m → Step m n → Reachable n
