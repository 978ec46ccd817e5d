-- ===== src/UnitTests/Logging.antt =====
-- unittests/src/logging-tests.cpp with the sink of unittests/include/dummy-sink.hpp: statements go through a
-- configured manager to a sink. The comparisons of addresses of context infos are left out.
use octo_logger_cpp.Prelude.{
  ◌≡◌, refl, Bool, true, false, not, ◌&&◌, Option, none, some, List, [], ◌∷◌, ◌++◌,
}
use octo_logger_cpp.Prelude.Text.{Text, text_Eq, text_eq, codes}
use octo_logger_cpp.Prelude.Int.{pos}
use octo_logger_cpp.Prelude.Map.{find, insert_or_assign}
use octo_logger_cpp.Prelude.Map
use octo_logger_cpp.Prelude.Result.{Result, ok, throw}
use octo_logger_cpp.Level.{LogLevel, level_to_string}
use octo_logger_cpp.Context.{
  ContextInfo, empty, contains, at, of_list, update_key, update, erase, clear, equals, all_in,
  found_as,
}
use octo_logger_cpp.Config.SinkConfig.{custom_sink}
use octo_logger_cpp.Config.ManagerConfig.{empty_config, add_custom_sink, has_option}
use octo_logger_cpp.Channel.{Channel, Logger, Log, set_log_level, c_string, until_nul}
use octo_logger_cpp.Manager.{
  Manager, new_manager, create_channel, configure, create_sinks, dump, call_sinks, apply_default,
  clear_sinks, set_all, replace_global_context_info, update_global_context_info,
}
use octo_logger_cpp.Logger.{
  no_manager, managed, memory_of, instance_of, make_logger, write, log, make_log, insert_all,
  destroy, dump_log, add_context_keys, remove_context_key, clear_context_info,
}
use octo_logger_cpp.Sink.{stream_text}
use octo_logger_cpp.Flow.{SinkClass, carry_out_all, calls_since}

record DumpedLog : Type 0 where
  message : Text
  log_context_info : ContextInfo
  context_info : ContextInfo
  global_context_info : ContextInfo
  channel_name : Text
  log_level : Text

-- push_front of what dump is called with. `none` is a level without a name.
abbrev pushed :
    Log
    → Channel
    → ContextInfo
    → ContextInfo
    → List DumpedLog
    → Option Text
    → Option (List DumpedLog)
pushed l c ci global logs none = none
pushed l c ci global logs (some name) = some (
    record {
      message = stream_text l.stream;
      log_context_info = l.log_context_info;
      context_info = ci;
      global_context_info = global;
      channel_name = c.channel_name;
      log_level = name;
    }
    ∷ logs)

abbrev dummy_class : SinkClass
dummy_class = record {
  Object = List DumpedLog;
  on_stop = λ discard logs. logs;
  on_dump = λ l c ci global logs. pushed l c ci global logs (level_to_string l.log_level);
  on_restart = λ logs. logs;
  on_destroy = λ logs. logs;
}

-- LoggingTestsFixture: the dummy sink has the address 0.
abbrev manager : Manager
manager =
    let before = no_manager record {
      channel_heap = [];
      sink_heap = record { sink_name = codes "Dummy"; sink_type = custom_sink; options = [] } ∷ [];
      calls = [];
      released = [];
    } in
    configure (pos 0) (add_custom_sink 0 empty_config) true (instance_of before)

-- A logger on "logging-tests" with context info of its own, in a manager.
abbrev logger_with : ContextInfo → Manager → Logger × Manager
logger_with ci m =
    let (l, m2) = make_logger record { bytes = codes "logging-tests"; after = [] } (managed m) in
    (add_context_keys ci l, m2)

-- logger.info("Test log", ci), and then a check of dummy_sink_->last_log()
abbrev check_last : (DumpedLog → Bool) → Option (List DumpedLog) → Bool
check_last check none = false
check_last check (some []) = false
check_last check (some (d ∷ logs)) = check d

abbrev info_then : (DumpedLog → Bool) → ContextInfo → Logger × Manager → Bool
info_then check ci (l, m) = check_last check (
    carry_out_all dummy_class 0
      (calls_since m (write 5 LogLevel.info (codes "Test log") ci [] l (managed m))) [])

abbrev key : Text → Text × Text
key digit = (codes "key" ++ digit, codes "value" ++ digit)

abbrev has : Text → ContextInfo → Bool
has digit ci = contains (codes "key" ++ digit) ci

abbrev two_keys : ContextInfo
two_keys = of_list (key (codes "1") ∷ key (codes "2") ∷ [])

abbrev init : Bool
init = let l = logger_with [] manager in empty l.0.context_info && empty manager.global_context_info

abbrev update_context_info : Bool
update_context_info =
    let l = logger_with two_keys manager in
    info_then (λ d. equals d.context_info two_keys) [] l
    && not (empty l.0.context_info)
    && has (codes "1") l.0.context_info
    && has (codes "2") l.0.context_info

abbrev erase_context_info : Bool
erase_context_info =
    let (l, m) = logger_with two_keys manager in
    let erased = remove_context_key (codes "key1") l in
    not (has (codes "1") erased.context_info)
    && has (codes "2") erased.context_info
    && info_then (λ d. has (codes "2") d.context_info && not (has (codes "1") d.context_info)) []
        (erased, m)

abbrev clear_context_infos : Bool
clear_context_infos =
    let (l, m) = logger_with two_keys manager in
    let cleared = clear_context_info l in
    empty cleared.context_info && info_then (λ d. empty d.context_info) [] (cleared, m)

abbrev init_global : Bool
init_global =
    let m = replace_global_context_info two_keys manager in
    not (empty m.global_context_info)
    && has (codes "1") m.global_context_info
    && has (codes "2") m.global_context_info
    && info_then (λ d. equals d.global_context_info two_keys) [] (logger_with [] m)

abbrev with_logger : Bool
with_logger =
    info_then
      (λ d.
        has (codes "1") d.global_context_info
        && has (codes "2") d.global_context_info
        && has (codes "3") d.context_info)
      []
      (logger_with (of_list (key (codes "3") ∷ [])) (replace_global_context_info two_keys manager))

abbrev with_log : Bool
with_log =
    info_then
      (λ d.
        has (codes "1") d.global_context_info
        && has (codes "2") d.global_context_info
        && has (codes "3") d.context_info
        && has (codes "4") d.context_info
        && has (codes "5") d.log_context_info)
      (of_list (key (codes "5") ∷ []))
      (logger_with (of_list (key (codes "3") ∷ key (codes "4") ∷ []))
        (replace_global_context_info two_keys manager))

abbrev replace_global : Bool
replace_global =
    info_then
      (λ d.
        not (has (codes "1") d.global_context_info)
        && not (has (codes "2") d.global_context_info)
        && has (codes "5") d.global_context_info
        && has (codes "6") d.global_context_info
        && has (codes "3") d.context_info
        && has (codes "4") d.log_context_info)
      (of_list (key (codes "4") ∷ []))
      (logger_with (of_list (key (codes "3") ∷ [])) (
        update_global_context_info (of_list (key (codes "6") ∷ []))
          (replace_global_context_info (of_list (key (codes "5") ∷ [])) manager)))

abbrev is_at : Text → Result Text → Bool
is_at v (ok w) = text_eq w v
is_at v (throw x) = false

abbrev update_global : Bool
update_global =
    info_then
      (λ d.
        is_at (codes "value1") (at (codes "key1") d.global_context_info)
        && is_at (codes "new_value2") (at (codes "key2") d.global_context_info)
        && is_at (codes "value3") (at (codes "key3") d.global_context_info)
        && has (codes "4") d.context_info
        && has (codes "5") d.log_context_info)
      (of_list (key (codes "5") ∷ []))
      (logger_with (of_list (key (codes "4") ∷ [])) (
        update_global_context_info (of_list ((codes "key2", codes "new_value2") ∷ [])) (
          replace_global_context_info
            (of_list (key (codes "1") ∷ key (codes "2") ∷ key (codes "3") ∷ [])) manager)))

-- "Update Manager Context"
abbrev update_copy : Bool
update_copy =
    info_then
      (λ d.
        not (has (codes "1") d.global_context_info)
        && not (has (codes "2") d.global_context_info)
        && has (codes "3") d.context_info
        && has (codes "4") d.log_context_info
        && has (codes "5") d.global_context_info)
      (of_list (key (codes "4") ∷ []))
      (logger_with (of_list (key (codes "3") ∷ [])) (
        replace_global_context_info
          (update_key (codes "key5") (codes "value5") manager.global_context_info) manager))

all_pass :
    (init && update_context_info && erase_context_info && clear_context_infos && init_global
      && with_logger && with_log && replace_global && update_global && update_copy)
    ≡ true
unfolding empty_config add_custom_sink has_option configure create_sinks apply_default clear_sinks
    set_all set_log_level new_manager create_channel c_string until_nul make_logger instance_of
    write log make_log insert_all memory_of destroy dump_log dump call_sinks carry_out_all
    level_to_string replace_global_context_info update_global_context_info add_context_keys
    remove_context_key clear_context_info empty contains at of_list update_key update erase clear
    equals all_in found_as find insert_or_assign Map.contains Map.erase
all_pass = refl
