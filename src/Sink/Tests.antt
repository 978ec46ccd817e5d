-- ===== src/Sink/Tests.antt =====
-- Texts of a log, and the theorems at concrete ones.
use octo_logger_cpp.Prelude.{
  ◌≡◌, refl, ◌⊎◌, true, false, not, ◌&&◌, some, none, [], ◌∷◌, ◌++◌, if◌then◌else◌, ltb,
}
use octo_logger_cpp.Prelude.Text.{text_Eq, codes}
use octo_logger_cpp.Prelude.Decimal.{decimal}
use octo_logger_cpp.Prelude.Map.{find, insert_or_assign}
use octo_logger_cpp.Prelude.Map
use octo_logger_cpp.Level.{LogLevel, level_to_string_short}
use octo_logger_cpp.Compat.{zero_tm, localtime}
use octo_logger_cpp.Context.{ContextInfo}
use octo_logger_cpp.Config.SinkConfig.{console_sink}
use octo_logger_cpp.Channel.{Channel, Log, until_nul}
use octo_logger_cpp.Sink.{
  Sink, json, Environment, fill_3, formatted_log, formatted_log_plaintext_short, init_context_info,
  add_missing,
}
use octo_logger_cpp.Sink.Precedence.{value_of}
use octo_logger_cpp.Sink.Destination.{
  object, Filled, init_context_info_impl, init_context_info_impl-Filled,
}
use octo_logger_cpp.Sink.Formats.{IsJson, IsLine, formatted_log_lem}

-- The time is always the epoch, and the JSON library always throws.
abbrev system : Environment
system = record {
  localtime_r = λ t tm. some tm;
  strftime = λ f tm. codes "[01/01/1970 00:00:00";
  process_id = codes "7";
  thread_id = codes "8";
  json_dump = λ j. none;
}

abbrev json_sink : Sink
json_sink = record {
  config = record { options = []; sink_type = console_sink; sink_name = codes "Console" };
  is_discarding = false;
  origin = [];
  format = json;
  safe_localtime_utc = false;
}

abbrev net : Channel
net = record { channel_name = codes "net"; channel_level = LogLevel.info }

abbrev own : ContextInfo
own = (codes "a", codes "1") ∷ []

abbrev of_logger : ContextInfo
of_logger = (codes "a", codes "2") ∷ (codes "b", codes "3") ∷ []

abbrev a_log : Log
a_log = record {
  stream = some (codes "up");
  log_level = LogLevel.error;
  time_created = 5;
  extra_identifier = codes "x";
  log_context_info = own;
}

runs : Unit {0}
unfolding formatted_log_plaintext_short fill_3 decimal octo_logger_cpp.Prelude.Decimal.digits_before
    level_to_string_short init_context_info add_missing find insert_or_assign Map.contains until_nul
runs =
    let short : formatted_log_plaintext_short system a_log net
        ≡ some (codes "[MS(005)][E][net][TID(8)][x]: up") =
      refl in
    let object : init_context_info a_log of_logger []
        ≡ (codes "a", codes "1") ∷ (codes "b", codes "3") ∷ (codes "session_id", codes "x") ∷ [] =
      refl in
    tt

init_context_info_impl-Filled_example :
    Filled
      (value_of a_log of_logger [])
      (object ((codes "b", codes "9") ∷ []))
      (init_context_info_impl a_log of_logger [] (object ((codes "b", codes "9") ∷ [])))
unfolding until_nul
init_context_info_impl-Filled_example =
    init_context_info_impl-Filled a_log of_logger [] (object ((codes "b", codes "9") ∷ []))
      (refl, tt) (refl, (refl, tt)) tt

formatted_log_lem_example :
    ((json ≡ json)
      × IsJson system (codes "up") (formatted_log system json_sink a_log net of_logger [] false))
    ⊎ IsLine (codes "up") (formatted_log system json_sink a_log net of_logger [] false)
unfolding level_to_string_short localtime
formatted_log_lem_example =
    formatted_log_lem system json_sink a_log net of_logger [] false (codes "E") zero_tm refl refl
