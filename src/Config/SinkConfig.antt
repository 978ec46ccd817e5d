-- ===== src/Config/SinkConfig.antt =====
-- src/sink-config.cpp, include/octo-logger-cpp/sink-config.hpp and config-utils.hpp, as built on
-- Linux with JSON formatting, so that every option and sink type is there.
use octo_logger_cpp.Prelude.{
  ℕ, zero, suc, ◌≡◌, refl, ap, sym, ◌∙◌, ◌↔◌, Bool, true, false, Option, none, some, List, [], ◌∷◌,
  ◌==◌, ==_iff, Eq, get_elem?, some_inj, if◌then◌else◌,
}
use octo_logger_cpp.Prelude.Text.{Text, codes}
use octo_logger_cpp.Prelude.Int.{ℤ, pos, negsuc}
use octo_logger_cpp.Prelude.Decimal.{int_text, read_int}
use octo_logger_cpp.Prelude.Map.{Map, find, insert_or_assign, erase, contains}

pub data SinkType : Type 0 where
  console_sink file_sink syslog_sink console_json_sink custom_sink : SinkType

pub data SinkOption : Type 0 where
  console_disable_color console_disable_context_info line_format log_thread_id : SinkOption
  use_safe_localtime_utc file_log_files_path file_size_per_log_file file_max_log_files : SinkOption
  file_log_folder_prefix file_separate_channel_files file_combined_channel_prefix
        file_no_time_on_name :
      SinkOption
  file_no_date_on_name file_log_folder_no_separate_by_date file_disable_context_info
        syslog_log_name :
      SinkOption
  console_json_origin console_json_host console_json_service console_json_indent : SinkOption

-- static_cast<std::uint8_t>(option)
abbrev pub index : SinkOption → ℕ
index console_disable_color = 0
index console_disable_context_info = 1
index line_format = 2
index log_thread_id = 3
index use_safe_localtime_utc = 4
index file_log_files_path = 5
index file_size_per_log_file = 6
index file_max_log_files = 7
index file_log_folder_prefix = 8
index file_separate_channel_files = 9
index file_combined_channel_prefix = 10
index file_no_time_on_name = 11
index file_no_date_on_name = 12
index file_log_folder_no_separate_by_date = 13
index file_disable_context_info = 14
index syslog_log_name = 15
index console_json_origin = 16
index console_json_host = 17
index console_json_service = 18
index console_json_indent = 19

abbrev all_options : List SinkOption
all_options =
    console_disable_color ∷ console_disable_context_info ∷ line_format ∷ log_thread_id
    ∷ use_safe_localtime_utc ∷ file_log_files_path ∷ file_size_per_log_file ∷ file_max_log_files
    ∷ file_log_folder_prefix ∷ file_separate_channel_files ∷ file_combined_channel_prefix
    ∷ file_no_time_on_name ∷ file_no_date_on_name ∷ file_log_folder_no_separate_by_date
    ∷ file_disable_context_info ∷ syslog_log_name ∷ console_json_origin ∷ console_json_host
    ∷ console_json_service ∷ console_json_indent ∷ []

get_elem?-index : (o : SinkOption) → get_elem? all_options (index o) ≡ some o
get_elem?-index console_disable_color = refl
get_elem?-index _ = refl

pub index_iff : (a b : SinkOption) → ((index a == index b) ≡ true) ↔ (a ≡ b)
index_iff a b = (
  λ h. some_inj (
      sym (get_elem?-index a)
      ∙ ap (get_elem? all_options) ((==_iff (index a) (index b)).0 h)
      ∙ get_elem?-index b),
  λ e. (==_iff (index a) (index b)).1 (ap index e),
)

instance abbrev pub option_Eq : Eq SinkOption
option_Eq = record { beq = λ a b. index a == index b; beq_iff = index_iff }

pub record SinkConfig : Type 0 where
  pub options : Map SinkOption Text
  pub sink_type : SinkType
  pub sink_name : Text

unfoldable pub make : Text → SinkType → SinkConfig
make sink_name sink_type = record { options = []; sink_type = sink_type; sink_name = sink_name }

unfoldable pub has_option : SinkOption → SinkConfig → Bool
has_option o c = contains o c.options

-- remove_option, with the configuration that it leaves.
unfoldable pub remove_option : SinkOption → SinkConfig → SinkConfig × Bool
remove_option o c =
    if has_option o c then (record c { options = erase o c.options }, true) else (c, false)

-- set_option<std::string>
unfoldable pub set_option : SinkOption → Text → SinkConfig → SinkConfig
set_option o value c = record c { options = insert_or_assign o value c.options }

-- set_option<int>, and for an enumerator the same with its number. convert_from writes the text.
unfoldable pub set_option_int : SinkOption → ℤ → SinkConfig → SinkConfig
set_option_int o value c = set_option o (int_text value) c

abbrev pub bool_text : Bool → Text
bool_text false = codes "0"
bool_text true = codes "1"

-- set_option<bool>
unfoldable pub set_option_bool : SinkOption → Bool → SinkConfig → SinkConfig
set_option_bool o value c = set_option o (bool_text value) c

-- option<std::string>: the value, if there is one; `at` cannot throw after the test.
unfoldable pub option : SinkOption → SinkConfig → Option Text
option o c = find o c.options

abbrev pub text_or : Option Text → Text → Text
text_or none d = d
text_or (some s) d = s

-- option_default<char const*>
unfoldable pub option_default : SinkOption → Text → SinkConfig → Text
option_default o d c = if has_option o c then text_or (option o c) d else d

-- convert_to<int> does not throw, so the catch clause has nothing to catch. `none` is a value that the
-- extraction leaves uninitialised.
unfoldable pub option_default_int : SinkOption → ℤ → SinkConfig → Option ℤ
option_default_int o d c = read_int (option_default o (int_text d) c)

-- A bool is read as a number: 0 is false, and so is a text that is no number.
abbrev pub int_bool : Option ℤ → Option Bool
int_bool none = none
int_bool (some (pos zero)) = some false
int_bool (some (pos (suc n))) = some true
int_bool (some (negsuc n)) = some true

unfoldable pub option_default_bool : SinkOption → Bool → SinkConfig → Option Bool
option_default_bool o d c = int_bool (read_int (option_default o (bool_text d) c))
