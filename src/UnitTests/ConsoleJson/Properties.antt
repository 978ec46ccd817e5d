-- ===== src/UnitTests/ConsoleJson/Properties.antt =====
-- unittests/src/sinks/console-json-sink-tests.cpp: objects with the sink's own texts and context infos.
use octo_logger_cpp.Prelude.{◌≡◌, refl, Bool, true, not, ◌&&◌, ◌||◌, some, List, [], ◌∷◌, ◌>>=◌}
use octo_logger_cpp.Prelude.Text.{Text, text_Eq, text_eq, codes, is_empty}
use octo_logger_cpp.Prelude.Map.{Map, find, insert_or_assign}
use octo_logger_cpp.Prelude.Map
use octo_logger_cpp.Level.{LogLevel, level_to_string, level_to_string_upper}
use octo_logger_cpp.Compat.{localtime}
use octo_logger_cpp.Context.{ContextInfo}
use octo_logger_cpp.Config.SinkConfig.{
  SinkConfig, SinkOption, console_json_sink, console_json_host, console_json_service,
  console_json_origin, log_thread_id, set_option, set_option_bool, option, option_default,
  option_default_int, option_default_bool,
}
use octo_logger_cpp.Config.SinkConfig
use octo_logger_cpp.Channel.{set_log_level, c_string, until_nul}
use octo_logger_cpp.Manager.{new_manager, create_channel}
use octo_logger_cpp.Logger.{instance_of, make_logger, make_log}
use octo_logger_cpp.Sink.{
  Environment, construct_log_json, add_missing, init_context_info, fill_3,
  formatted_log_plaintext_long,
}
use octo_logger_cpp.Sink
use octo_logger_cpp.Console.Json.{make, console_log, dump}
use octo_logger_cpp.Prelude.Decimal.{
  read_int, read_signed, skip_spaces, read_unsigned, read_digits, int_text,
}
use octo_logger_cpp.UnitTests.ConsoleJson.{default_config, passes, object_of, says_upper}

record TestData : Type 0 where
  level : LogLevel
  host : Text
  service : Text
  origin : Text
  own : ContextInfo
  global : ContextInfo

abbrev test_data : List TestData
test_data =
    record { level = LogLevel.trace; host = []; service = []; origin = []; own = []; global = [] }
    ∷ record {
      level = LogLevel.debug;
      host = codes "host1";
      service = [];
      origin = [];
      own = [];
      global = [];
    }
    ∷ record {
      level = LogLevel.info;
      host = [];
      service = codes "service2";
      origin = [];
      own = [];
      global = [];
    }
    ∷ record {
      level = LogLevel.notice;
      host = [];
      service = [];
      origin = codes "origin3";
      own = [];
      global = [];
    }
    ∷ record {
      level = LogLevel.warning;
      host = codes "host4";
      service = codes "service4";
      origin = [];
      own = [];
      global = [];
    }
    ∷ record {
      level = LogLevel.error;
      host = [];
      service = codes "service5";
      origin = codes "origin5";
      own = [];
      global = [];
    }
    ∷ record {
      level = LogLevel.info;
      host = codes "host6";
      service = codes "service6";
      origin = codes "origin6";
      own = [];
      global = [];
    }
    ∷ record {
      level = LogLevel.info;
      host = codes "host7";
      service = codes "service7";
      origin = codes "origin7";
      own = (codes "key_a", codes "value_a") ∷ (codes "key_b", codes "value_b") ∷ [];
      global = [];
    }
    ∷ record {
      level = LogLevel.info;
      host = codes "host8";
      service = codes "service8";
      origin = codes "origin8";
      own = [];
      global =
          (codes "global_key_a", codes "global_value_a")
          ∷ (codes "global_key_b", codes "global_value_b")
          ∷ [];
    }
    ∷ record {
      level = LogLevel.info;
      host = codes "host9";
      service = codes "service9";
      origin = codes "origin9";
      own = (codes "key_a", codes "value_a") ∷ (codes "key_b", codes "value_b") ∷ [];
      global =
          (codes "global_key_a", codes "global_value_a")
          ∷ (codes "global_key_b", codes "global_value_b")
          ∷ [];
    }
    ∷ []

abbrev configured : Text → Text → Text → SinkConfig
configured host service origin =
    set_option console_json_origin origin
      (set_option console_json_service service (set_option console_json_host host default_config))

abbrev found_as : Text → Text → Map Text Text → Bool
found_as key value m = passes (do v ← find key m; some (text_eq v value))

-- Each entry, but for those whose key is in `above`, is in the object.
abbrev all_found : ContextInfo → ContextInfo → Map Text Text → Bool
all_found above [] m = true
all_found above ((key, value) ∷ ci) m =
    (Map.contains key above || found_as key value m) && all_found above ci m

-- Each key of the object is one of a context info, or session_id.
abbrev all_known : ContextInfo → ContextInfo → Map Text Text → Bool
all_known own global [] = true
all_known own global ((key, value) ∷ m) =
    (Map.contains key own || (Map.contains key global || text_eq key (codes "session_id")))
    && all_known own global m

-- "Test with properties"
abbrev has_properties : List TestData → Bool
has_properties [] = true
has_properties (row ∷ rows) =
    passes (do
      j ← object_of (configured row.host row.service row.origin) row.level row.own row.global
      some (
          text_eq j.host_key row.host
          && text_eq j.service_key row.service
          && text_eq j.log_json.json_origin row.origin
          && says_upper j.log_json.log_level row.level
          && all_found [] row.own j.log_json.context_info
          && all_found row.own row.global j.log_json.context_info
          && all_known row.own row.global j.log_json.context_info))
    && has_properties rows

-- "Test log_thread_id configuration adds thread id to context_info"
abbrev has_thread_id : Bool
has_thread_id = passes (do
  j ←
      object_of
        (set_option_bool log_thread_id true
          (configured (codes "host_thread") (codes "service_thread") (codes "origin_thread")))
        LogLevel.info ((codes "custom_key", codes "custom_value") ∷ [])
        ((codes "global_key", codes "global_value") ∷ [])
  id ← find (codes "thread_id") j.log_json.context_info
  some (
      not (is_empty id)
      && found_as (codes "custom_key") (codes "custom_value") j.log_json.context_info
      && found_as (codes "global_key") (codes "global_value") j.log_json.context_info))

all_pass : (has_properties test_data && has_thread_id) ≡ true
unfolding make dump console_log Sink.make SinkConfig.make SinkConfig.has_option set_option
    set_option_bool option option_default option_default_int option_default_bool construct_log_json
    init_context_info add_missing fill_3 formatted_log_plaintext_long localtime level_to_string
    level_to_string_upper set_log_level c_string until_nul new_manager create_channel instance_of
    make_logger make_log find insert_or_assign Map.contains read_int read_signed skip_spaces
    read_unsigned read_digits int_text
all_pass = refl
