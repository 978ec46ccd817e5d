-- ===== src/Config/ManagerConfig.antt =====
-- src/manager-config.cpp and include/octo-logger-cpp/manager-config.hpp.
use octo_logger_cpp.Prelude.{
  ℕ, ◌≡◌, refl, ◌↔◌, Bool, true, false, not, Option, none, some, List, [], ◌∷◌, ◌++◌, Eq,
  if◌then◌else◌,
}
use octo_logger_cpp.Prelude.Text.{Text, text_eq}
use octo_logger_cpp.Prelude.Int.{ℤ}
use octo_logger_cpp.Prelude.Decimal.{int_text, read_int}
use octo_logger_cpp.Prelude.Map.{Map, find, insert_or_assign, erase, contains}
use octo_logger_cpp.Config.SinkConfig.{SinkConfig}

pub data LoggerOption : Type 0 where
  default_channel_level : LoggerOption

pub logger_option_iff :
    (a b : LoggerOption) → ((λ (x : LoggerOption) (y : LoggerOption). true) a b ≡ true) ↔ (a ≡ b)
logger_option_iff default_channel_level default_channel_level = (λ _. refl, λ _. refl)

instance abbrev pub logger_option_Eq : Eq LoggerOption
logger_option_Eq = record { beq = λ a b. true; beq_iff = logger_option_iff }

-- A custom sink is held by a shared pointer, here its address: the pointed-at sink is no part of the
-- configuration. `sink_name_of` stands for the virtual call sink->sink_name().
pub record ManagerConfig : Type 0 where
  pub sink_configs : List SinkConfig
  pub custom_sinks : List ℕ
  pub logger_options : Map LoggerOption Text

unfoldable pub empty_config : ManagerConfig
empty_config = record { sink_configs = []; custom_sinks = []; logger_options = [] }

unfoldable pub set_option : LoggerOption → Text → ManagerConfig → ManagerConfig
set_option o value c = record c { logger_options = insert_or_assign o value c.logger_options }

-- set_option<int>, and for an enumerator the same with its number
unfoldable pub set_option_int : LoggerOption → ℤ → ManagerConfig → ManagerConfig
set_option_int o value c = set_option o (int_text value) c

unfoldable pub has_option : LoggerOption → ManagerConfig → Bool
has_option o c = contains o c.logger_options

unfoldable pub remove_option : LoggerOption → ManagerConfig → ManagerConfig × Bool
remove_option o c =
    if not (has_option o c)
    then (c, false)
    else (record c { logger_options = erase o c.logger_options }, true)

-- option<std::string>
unfoldable pub option : LoggerOption → ManagerConfig → Option Text
option o c = find o c.logger_options

-- option<T> reads an int for every T. The outer `none` is the answer false; the inner one an int that
-- the extraction leaves uninitialised.
abbrev pub read_option : Option Text → Option (Option ℤ)
read_option none = none
read_option (some s) = some (read_int s)

unfoldable pub option_int : LoggerOption → ManagerConfig → Option (Option ℤ)
option_int o c = read_option (option o c)

unfoldable pub names_sink : Text → List SinkConfig → Bool
names_sink name [] = false
names_sink name (c ∷ cs) = if text_eq c.sink_name name then true else names_sink name cs

-- has_sink looks at the sink configurations only, not at the custom sinks.
unfoldable pub has_sink : Text → ManagerConfig → Bool
has_sink name c = names_sink name c.sink_configs

unfoldable pub add_sink : SinkConfig → ManagerConfig → ManagerConfig
add_sink s c = record c { sink_configs = c.sink_configs ++ s ∷ [] }

unfoldable pub add_custom_sink : ℕ → ManagerConfig → ManagerConfig
add_custom_sink s c = record c { custom_sinks = c.custom_sinks ++ s ∷ [] }

-- One of the two loops of remove_sink: the list without the first entry of that name, if there is one.
unfoldable pub remove_first : {A : Type 0} → (A → Text) → Text → List A → Option (List A)
remove_first name_of name [] = none
remove_first name_of name (x ∷ xs) =
    let rest = remove_first name_of name xs in
    if text_eq (name_of x) name
    then some xs
    else elim rest [ none ↦ none | some ys ↦ some (x ∷ ys) ]

abbrev pub after_custom : ManagerConfig → Option (List ℕ) → ManagerConfig
after_custom c none = c
after_custom c (some ss) = record c { custom_sinks = ss }

abbrev pub after_sinks :
    (ℕ → Text) → Text → ManagerConfig → Option (List SinkConfig) → ManagerConfig
after_sinks sink_name_of name c (some ss) = record c { sink_configs = ss }
after_sinks sink_name_of name c none =
    after_custom c (remove_first sink_name_of name c.custom_sinks)

unfoldable pub remove_sink : (ℕ → Text) → Text → ManagerConfig → ManagerConfig
remove_sink sink_name_of name c =
    after_sinks sink_name_of name c
      (remove_first (λ (s : SinkConfig). s.sink_name) name c.sink_configs)
