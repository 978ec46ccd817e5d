-- ===== src/Manager/Tests.antt =====
-- Runs of the manager, and the theorems at concrete states.
use octo_logger_cpp.Prelude.{
  arith, ◌≡◌, refl, ◌⊎◌, true, false, not, ◌&&◌, some, none, [], ◌∷◌, ◌++◌, map, length,
  if◌then◌else◌, ◌==◌,
}
use octo_logger_cpp.Prelude.Text.{Text, text_Eq, text_eq, codes}
use octo_logger_cpp.Prelude.Int.{pos}
use octo_logger_cpp.Prelude.Map.{find, insert_or_assign, contains}
use octo_logger_cpp.Level.{LogLevel, value}
use octo_logger_cpp.Config.SinkConfig.{SinkConfig, console_sink, custom_sink}
use octo_logger_cpp.Config.ManagerConfig.{
  ManagerConfig, has_option, option_int, default_channel_level, set_option_int, remove_option,
}
use octo_logger_cpp.Channel.{Channel, ChannelPtr, StringView, deref, until_nul, c_string}
use octo_logger_cpp.Channel
use octo_logger_cpp.Manager.{
  Manager, Memory, new_manager, create_channel, set_log_level, mute_channel, configure, terminate,
  stop_call, create_sinks, creates, clear_sinks, apply_default, set_all,
}
use octo_logger_cpp.Context.{ContextInfo}
use octo_logger_cpp.Manager.Sharing.{starting, finished, run, run_lem}
use octo_logger_cpp.Manager.{replace_global_context_info, update_global_context_info}
use octo_logger_cpp.Manager.Steps.{made, after, create_step}
use octo_logger_cpp.Manager.Valid.{Valid}
use octo_logger_cpp.Manager.Valid.Reached.{Reachable-Valid}
use octo_logger_cpp.Manager.Writes.{with_level, registers}
use octo_logger_cpp.Manager.Levels.{fresh, create_channel_lem, set_log_level_lem}
use octo_logger_cpp.Manager.Levels.Configured.{low_byte, Leveled, configure_levels}
use octo_logger_cpp.Manager.Sinks.{addresses, creatable, configure_sinks, terminate_lem}

abbrev no_memory : Memory
no_memory = record { channel_heap = []; sink_heap = []; calls = []; released = [] }

abbrev net : StringView
net = record { bytes = codes "net"; after = [] }

-- A manager with one channel, of level Info.
one_channel : Manager
unfolding new_manager create_channel c_string until_nul insert_or_assign find
one_channel = (create_channel net (new_manager no_memory)).1

abbrev console : SinkConfig
console = record { options = []; sink_type = console_sink; sink_name = codes "Console" }

abbrev custom : SinkConfig
custom = record { options = []; sink_type = custom_sink; sink_name = codes "Custom" }

abbrev loud : ManagerConfig
loud = record {
  sink_configs = console ∷ custom ∷ console ∷ [];
  custom_sinks = [];
  logger_options = (default_channel_level, codes "1") ∷ [];
}

configured : Manager
unfolding one_channel configure create_sinks creates clear_sinks apply_default set_all
    Channel.set_log_level has_option contains option_int
configured = configure (pos 0) loud true one_channel

runs : Unit {0}
unfolding one_channel configured mute_channel set_log_level find c_string until_nul
    Channel.set_log_level
runs =
    let made : one_channel.memory.channel_heap
        ≡ record { channel_name = codes "net"; channel_level = LogLevel.info } ∷ [] =
      refl in
    let two : configured.sinks ≡ 0 ∷ 1 ∷ [] = refl in
    let muted : (mute_channel (codes "net") one_channel).0 ≡ true = refl in
    let cut : c_string (record { bytes = codes "ne"; after = codes "t" }) ≡ codes "net" = refl in tt

-- All names are those of whole strings.
abbrev IsWhole : StringView → Type 0
IsWhole name = name.after ≡ []

Reachable-Valid_example : Valid IsWhole (create_channel net (new_manager no_memory)).1
Reachable-Valid_example =
    Reachable-Valid IsWhole (after (made no_memory) (create_step (new_manager no_memory) net refl))

create_again : create_channel net one_channel ≡ (0, one_channel)
unfolding one_channel create_channel c_string until_nul find
create_again = refl

create_channel_lem_example :
    (create_channel net one_channel ≡ (0, one_channel))
    × ((j : Text)
        → find j one_channel.channels
          ≡ (if text_eq (c_string net) j then some 0 else find j one_channel.channels))
    × (((find (c_string net) one_channel.channels ≡ some 0) × (one_channel ≡ one_channel))
        ⊎ ((find (c_string net) one_channel.channels ≡ none)
            × (0 ≡ length one_channel.memory.channel_heap)
            × (one_channel.memory.channel_heap
                ≡ one_channel.memory.channel_heap ++ fresh net one_channel ∷ [])))
create_channel_lem_example = create_channel_lem one_channel net 0 one_channel create_again

set_log_level_lem_example :
    (value (set_log_level LogLevel.error one_channel).default_log_level ≡ value LogLevel.error)
    × ((q : ChannelPtr)
        → deref q (set_log_level LogLevel.error one_channel).memory.channel_heap ≡ (
            if not (value LogLevel.error == value one_channel.default_log_level)
              && registers one_channel.channels q
            then with_level LogLevel.error (deref q one_channel.memory.channel_heap)
            else deref q one_channel.memory.channel_heap))
set_log_level_lem_example = set_log_level_lem one_channel LogLevel.error

-- An int of 257 is the level Trace.
configure_levels_example :
    let set =
      configure (pos 0) (set_option_int default_channel_level (pos 257) loud) true one_channel in
    let unset = configure (pos 0) (remove_option default_channel_level loud).0 true one_channel in
    (value set.default_log_level ≡ low_byte (pos 257))
    × Leveled one_channel set
    × (unset.default_log_level ≡ one_channel.default_log_level)
    × Leveled one_channel unset
configure_levels_example = configure_levels one_channel (pos 0) (pos 257) loud true (omega arith)

configure_sinks_example :
    ((configure (pos 0) loud true one_channel).sinks
      ≡ ((if true then [] else one_channel.sinks)
          ++ addresses (length one_channel.memory.sink_heap) (creatable loud.sink_configs))
        ++ loud.custom_sinks)
    × ((configure (pos 0) loud true one_channel).memory.sink_heap
        ≡ one_channel.memory.sink_heap ++ creatable loud.sink_configs)
    × ((configure (pos 0) loud true one_channel).memory.calls ≡ one_channel.memory.calls)
    × ((configure (pos 0) loud true one_channel).memory.released
        ≡ one_channel.memory.released ++ (if true then one_channel.sinks else []))
configure_sinks_example = configure_sinks one_channel (pos 0) loud true

terminate_lem_example :
    ((terminate configured).memory.calls
      ≡ configured.memory.calls ++ map (λ p. (p, stop_call false)) configured.sinks)
    × ((terminate configured).memory.released ≡ configured.memory.released ++ configured.sinks)
    × ((terminate configured).sinks ≡ [])
    × ((terminate configured).channels ≡ [])
    × ((terminate configured).memory.channel_heap ≡ configured.memory.channel_heap)
    × (terminate (terminate configured) ≡ terminate configured)
terminate_lem_example = terminate_lem configured

abbrev tenant : ContextInfo
tenant = (codes "tenant_id", codes "a") ∷ []

abbrev session : ContextInfo
session = (codes "session_id", codes "b") ∷ []

-- Both threads read before either writes: the first update is lost.
lost_update :
    run tenant session
      (true ∷ false ∷ true ∷ false ∷ [])
      (record { first = starting; second = starting; manager = new_manager no_memory })
    ≡ record {
      first = finished;
      second = finished;
      manager = update_global_context_info session (new_manager no_memory);
    }
unfolding run replace_global_context_info update_global_context_info new_manager
lost_update = refl

run_lem_example :
    ((update_global_context_info session (new_manager no_memory)
        ≡ update_global_context_info session
            (update_global_context_info tenant (new_manager no_memory)))
      ⊎ (update_global_context_info session (new_manager no_memory)
          ≡ update_global_context_info tenant
              (update_global_context_info session (new_manager no_memory))))
    ⊎ ((update_global_context_info session (new_manager no_memory)
          ≡ update_global_context_info tenant (new_manager no_memory))
        ⊎ (update_global_context_info session (new_manager no_memory)
            ≡ update_global_context_info session (new_manager no_memory)))
run_lem_example =
    run_lem tenant session (new_manager no_memory)
      (update_global_context_info session (new_manager no_memory))
      (true ∷ false ∷ true ∷ false ∷ []) lost_update
