-- ===== src/Manager.antt =====
-- src/manager.cpp, src/sink-factory.cpp: the manager's state and its operations. A sink is seen through
-- the calls made on it, which `calls` records in order; what a sink does on a call is the sink's matter.
pub mod Writes
pub mod Steps
pub mod Valid
pub mod Levels
pub mod Sinks
pub mod Sharing
pub mod Threads
mod Tests
use octo_logger_cpp.Prelude.{
  ℕ, Bool, true, false, ◌%◌, ◌-◌, Option, none, some, List, [], ◌∷◌, ◌++◌, map, length,
  if◌then◌else◌, ◌==◌,
}
use octo_logger_cpp.Prelude.Text.{Text, text_Eq, codes}
use octo_logger_cpp.Prelude.Int.{ℤ, pos, negsuc}
use octo_logger_cpp.Prelude.Map.{Map, find, insert_or_assign}
use octo_logger_cpp.Prelude.Result.{Result, ok, throw, runtime_error}
use octo_logger_cpp.Level.{LogLevel, value, of_value}
use octo_logger_cpp.Context.{ContextInfo, update}
use octo_logger_cpp.Config.SinkConfig.{
  SinkConfig, SinkType, console_sink, file_sink, syslog_sink, console_json_sink,
}
use octo_logger_cpp.Config.ManagerConfig.{
  ManagerConfig, default_channel_level, empty_config, has_option, option_int,
}
use octo_logger_cpp.Channel.{Channel, ChannelPtr, Heap, deref, StringView, c_string, Logger, Log}
use octo_logger_cpp.Channel

-- A std::shared_ptr to a sink: its address in `sink_heap`.
abbrev pub SinkPtr : Type 0
SinkPtr = ℕ

-- A virtual call on a sink.
pub data Call : Type 0 where
  stop_call : Bool → Call
  dump_call : Log → Channel → ContextInfo → ContextInfo → Call
  restart_call : Call

-- What the manager reads and writes outside of itself. Of a sink the configuration is kept.
pub record Memory : Type 0 where
  pub channel_heap : Heap
  pub sink_heap : List SinkConfig
  pub calls : List (SinkPtr × Call)
  pub released : List SinkPtr

pub record Manager : Type 0 where
  pub channels : Map Text ChannelPtr
  pub sinks : List SinkPtr
  pub config : ManagerConfig
  pub default_log_level : LogLevel
  pub global_logger : Option Logger
  pub global_context_info : ContextInfo
  pub memory : Memory

unfoldable pub new_manager : Memory → Manager
new_manager mem = record {
  channels = [];
  sinks = [];
  config = empty_config;
  default_log_level = LogLevel.info;
  global_logger = none;
  global_context_info = [];
  memory = mem;
}

abbrev pub with_heap : Heap → Manager → Manager
with_heap heap m = record m { memory = record m.memory { channel_heap = heap } }

-- try_emplace: the channel made for the call is kept only if there is none under the key.
abbrev pub emplace : StringView → Option ChannelPtr → Manager → ChannelPtr × Manager
emplace name (some p) m = (p, m)
emplace name none m =
    let p = length m.memory.channel_heap in
    let c : Channel = record { channel_name = name.bytes; channel_level = m.default_log_level } in
    (
      p,
      with_heap (m.memory.channel_heap ++ c ∷ [])
          (record m { channels = insert_or_assign (c_string name) p m.channels }),
    )

unfoldable pub create_channel : StringView → Manager → ChannelPtr × Manager
create_channel name m = emplace name (find (c_string name) m.channels) m

abbrev pub no_channel : Text → Result ChannelPtr
no_channel name = throw (runtime_error ((codes "No channel for given name [" ++ name) ++ codes "]"))

abbrev pub found_channel : Text → Option ChannelPtr → Result ChannelPtr
found_channel name none = no_channel name
found_channel name (some p) = ok p

-- channel() and editable_channel(); the reference is the address.
unfoldable pub channel : Text → Manager → Result ChannelPtr
channel name m = found_channel name (find name m.channels)

unfoldable pub has_channel : Text → Manager → Bool
has_channel name m = octo_logger_cpp.Prelude.Map.contains name m.channels

-- The loop `for (auto& channel : channels_)`.
unfoldable pub set_all : LogLevel → Map Text ChannelPtr → Heap → Heap
set_all level [] heap = heap
set_all level ((name, p) ∷ channels) heap =
    set_all level channels (Channel.set_log_level level p heap)

unfoldable pub apply_default : Manager → Manager
apply_default m = with_heap (set_all m.default_log_level m.channels m.memory.channel_heap) m

unfoldable pub set_log_level : LogLevel → Manager → Manager
set_log_level level m =
    if value level == value m.default_log_level
    then m
    else apply_default (record m { default_log_level = level })

abbrev pub muted : Option ChannelPtr → Manager → Bool × Manager
muted none m = (false, m)
muted (some p) m =
    (true, with_heap (Channel.set_log_level LogLevel.quiet p m.memory.channel_heap) m)

unfoldable pub mute_channel : Text → Manager → Bool × Manager
mute_channel name m = muted (find name m.channels) m

-- A call on every sink, in the order of the vector.
unfoldable pub call_sinks : Call → Manager → Manager
call_sinks c m = record m {
  memory = record m.memory { calls = m.memory.calls ++ map (λ p. (p, c)) m.sinks };
}

unfoldable pub stop : Bool → Manager → Manager
stop discard m = call_sinks (stop_call discard) m

unfoldable pub restart_sinks : Manager → Manager
restart_sinks m = call_sinks restart_call m

-- sinks_.clear() gives up the vector's shared pointers, in `released`: a sink's destructor runs then, if no
-- other pointer (the user's, or the one of a configuration) holds the sink.
unfoldable pub clear_sinks : Manager → Manager
clear_sinks m = record m {
  sinks = [];
  memory = record m.memory { released = m.memory.released ++ m.sinks };
}

unfoldable pub clear_channels : Manager → Manager
clear_channels m = record m { channels = [] }

unfoldable pub terminate : Manager → Manager
terminate m = clear_channels (clear_sinks (stop false m))

-- dump(log, channel, context_info)
unfoldable pub dump : Log → Channel → ContextInfo → Manager → Manager
dump log c ci m = call_sinks (dump_call log c ci m.global_context_info) m

-- dump(log, channel_name, context_info)
abbrev pub dump_found : Log → ContextInfo → Result ChannelPtr → Manager → Result Manager
dump_found log ci (throw x) m = throw x
dump_found log ci (ok p) m = elim (deref p m.memory.channel_heap) [
  | none ↦ ok m
  | some c ↦ ok (dump log c ci m)
]

unfoldable pub dump_named : Log → Text → ContextInfo → Manager → Result Manager
dump_named log name ci m = dump_found log ci (channel name m) m

-- SinkFactory::create_sink on a system that is not Windows, built with JSON formatting: whether the
-- answer is a sink and not a null pointer.
unfoldable pub creates : SinkConfig → Bool
creates c = elim c.sink_type [
  | console_sink ↦ true
  | file_sink ↦ true
  | syslog_sink ↦ true
  | console_json_sink ↦ true
  | _ ↦ false
]

-- One round of the loop over the configurations, by whether the factory makes a sink.
abbrev pub create_one : Bool → SinkConfig → Manager → Manager
create_one false c m = m
create_one true c m = record m {
  sinks = m.sinks ++ length m.memory.sink_heap ∷ [];
  memory = record m.memory { sink_heap = m.memory.sink_heap ++ c ∷ [] };
}

unfoldable pub create_sinks : List SinkConfig → Manager → Manager
create_sinks [] m = m
create_sinks (c ∷ cs) m = create_sinks cs (create_one (creates c) c m)

-- static_cast<LogLevel>(int)
abbrev pub level_of_int : ℤ → LogLevel
level_of_int (pos n) = of_value n
level_of_int (negsuc n) = of_value (255 - n % 256)

-- option(DEFAULT_CHANNEL_LEVEL, default_level). `junk` is what an int holds that no one has set.
abbrev pub configured_level : ℤ → Option (Option ℤ) → LogLevel → LogLevel
configured_level junk none level = level
configured_level junk (some none) level = level_of_int junk
configured_level junk (some (some i)) level = level_of_int i

unfoldable pub configure : ℤ → ManagerConfig → Bool → Manager → Manager
configure junk config clear_old_sinks m =
    let cleared = if clear_old_sinks then clear_sinks m else m in
    let leveled = record cleared {
      config = config;
      default_log_level =
          if has_option default_channel_level config
          then configured_level junk (option_int default_channel_level config)
              cleared.default_log_level
          else cleared.default_log_level;
    } in
    let created = create_sinks config.sink_configs leveled in
    apply_default (record created { sinks = created.sinks ++ config.custom_sinks })

unfoldable pub replace_global_context_info : ContextInfo → Manager → Manager
replace_global_context_info ci m = record m { global_context_info = ci }

-- The copy is made from the context info as read at the start, and written at the end.
unfoldable pub update_global_context_info : ContextInfo → Manager → Manager
update_global_context_info ci m = replace_global_context_info (update m.global_context_info ci) m

-- child_on_fork: the locks are made anew, and the context info is copied.
unfoldable pub child_on_fork : Manager → Manager
child_on_fork m = replace_global_context_info m.global_context_info m
