-- ===== src/Config/Tests.antt =====
-- Runs of the configurations, and the theorems at concrete ones.
use octo_logger_cpp.Prelude.{◌≡◌, refl, true, false, some, none, [], ◌∷◌}
use octo_logger_cpp.Prelude.Text.{codes}
use octo_logger_cpp.Prelude.Int.{pos, negsuc}
use octo_logger_cpp.Prelude.Map.{find, insert_or_assign, contains}
use octo_logger_cpp.Prelude.Decimal.{
  read_int, read_signed, read_unsigned, read_digits, skip_spaces, int_text,
}
use octo_logger_cpp.Config.SinkConfig.{
  SinkConfig, file_max_log_files, console_disable_color, file_sink, make, has_option, set_option,
  set_option_int, option, option_default, option_default_int, option_default_bool,
}
use octo_logger_cpp.Config.ManagerConfig.{
  ManagerConfig, empty_config, add_sink, add_custom_sink, remove_sink, remove_first,
}

file : SinkConfig
unfolding make
file = make (codes "File") file_sink

abbrev blank_file : SinkConfig
blank_file = record {
  options = (file_max_log_files, codes " ") ∷ [];
  sink_type = file_sink;
  sink_name = codes "File";
}

two_sinks : ManagerConfig
unfolding empty_config add_sink add_custom_sink file
two_sinks = add_custom_sink 7 (add_sink file empty_config)

reads : Unit {0}
unfolding read_int read_signed read_unsigned read_digits skip_spaces option_default_int
    option_default_bool option_default has_option option set_option set_option_int int_text contains
    find insert_or_assign
reads = tt

limit :
    option_default_int file_max_log_files
      (negsuc 0)
      (set_option_int file_max_log_files (pos 12) file)
    ≡ some (pos 12)
unfolding reads file
limit = refl

-- The text "true" is no number, so it reads as false.
text_true :
    option_default_bool console_disable_color true
      (set_option console_disable_color (codes "true") file)
    ≡ some false
unfolding reads file
text_true = refl

blank : option_default_int file_max_log_files (negsuc 0) blank_file ≡ none
unfolding reads
blank = refl

removes_custom : (remove_sink (λ s. codes "Custom") (codes "Custom") two_sinks).custom_sinks ≡ []
unfolding remove_sink remove_first two_sinks
removes_custom = refl
