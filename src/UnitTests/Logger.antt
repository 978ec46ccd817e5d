-- ===== src/UnitTests/Logger.antt =====
-- unittests/src/logger-tests.cpp: the tests of a logger's context info and of its channel.
mod Tables
use octo_logger_cpp.Prelude.{
  ◌≡◌, refl, ℕ, zero, suc, ◌==◌, Bool, true, false, not, ◌&&◌, Option, none, some, List, [], ◌∷◌,
  Bool-cases,
}
use octo_logger_cpp.Prelude.Text.{Text, text_Eq, text_eq, codes}
use octo_logger_cpp.Prelude.Decimal.{decimal}
use octo_logger_cpp.Prelude.Map.{find, insert_or_assign}
use octo_logger_cpp.Prelude.Map
use octo_logger_cpp.Context.{
  ContextInfo, empty, contains, of_list, update_key, erase, clear, equals, all_in, found_as,
}
use octo_logger_cpp.Channel.{Channel, Logger, StringView, deref, c_string, until_nul}
use octo_logger_cpp.Manager.{Manager, new_manager, create_channel}
use octo_logger_cpp.Logger.{
  Process, no_manager, managed, instance_of, make_logger, add_context_key, remove_context_key,
  clear_context_info,
}

abbrev pub literal : Text → StringView
literal name = record { bytes = name; after = [] }

abbrev before : Process
before = no_manager record { channel_heap = []; sink_heap = []; calls = []; released = [] }

-- LoggerMock()
abbrev pub logger : Logger
logger = (make_logger (literal (codes "LoggerTest")) before).0

-- ContextInfoEquals(expected).match(...)
abbrev pub info_matches : ContextInfo → Logger → Bool
info_matches expected l = equals expected l.context_info

-- LoggerMock::channel_name_getter
abbrev name_is : Text → Option Channel → Bool
name_is name none = false
name_is name (some c) = text_eq c.channel_name name

abbrev name : Text
name = codes "basic_test_logger"

abbrev made : Logger × Manager
made = make_logger (literal name) before

abbrev miscellaneous : Bool
miscellaneous =
    name_is name (deref made.0.channel_view made.1.memory.channel_heap) && empty made.0.context_info

abbrev channel_sharing : Bool
channel_sharing =
    made.0.channel_view == (make_logger (literal name) (managed made.1)).0.channel_view

abbrev key_1 : Text × Text
key_1 = (codes "test_key_1", codes "test_value_1")

abbrev key_2 : Text × Text
key_2 = (codes "test_key_2", codes "test_value_2")

abbrev key_3 : Text × Text
key_3 = (codes "test_key_3", codes "test_value_3")

abbrev add : Text × Text → Logger → Logger
add (key, value) l = add_context_key key value l

abbrev one : Logger
one = add key_1 logger

abbrev two : Logger
two = add key_2 one

abbrev add_to_context_info : Bool
add_to_context_info =
    empty logger.context_info
    && not (empty one.context_info)
    && info_matches (of_list (key_1 ∷ [])) one
    && info_matches (of_list (key_1 ∷ key_2 ∷ [])) two

abbrev add_duplicate : Bool
add_duplicate =
    info_matches (of_list (key_1 ∷ key_2 ∷ key_3 ∷ [])) (add key_3 two)
    && info_matches (of_list (key_1 ∷ key_2 ∷ key_3 ∷ [])) (add key_3 (add key_3 two))

abbrev overwrite_value : Bool
overwrite_value =
    let again = add key_1 (clear_context_info two) in
    let other : Text × Text = (codes "test_key_1", codes "test_value_999") in
    info_matches (of_list (key_1 ∷ [])) again
    && info_matches (of_list (other ∷ [])) (add other again)

abbrev removed : Logger
removed = remove_context_key (codes "test_key_2") two

abbrev remove_last : Bool
remove_last =
    let last = remove_context_key (codes "test_key_1") removed in
    info_matches (of_list (key_1 ∷ [])) removed
    && info_matches (of_list []) last
    && empty last.context_info

abbrev remove_none_existing : Bool
remove_none_existing =
    let key = codes "test_key_none_existing" in
    let l = add key_1 removed in
    not (empty l.context_info)
    && not (contains key l.context_info)
    && not (contains key (remove_context_key key l).context_info)

-- The call that does not throw is a function that returns.
abbrev remove_from_empty : Bool
remove_from_empty =
    let l = clear_context_info removed in
    empty l.context_info
    && info_matches l.context_info (remove_context_key (codes "test_key_from_empty") l)

-- for (int i = 0; i < 5; ++i), with the `left` rounds that are left
abbrev add_numbers : ℕ → ℕ → Logger → Logger
add_numbers zero i l = l
add_numbers (suc left) i l = add_numbers left (suc i) (add_context_key (decimal i) (decimal i) l)

abbrev clear_all : Bool
clear_all =
    let l = add_numbers 5 0 logger in
    not (empty l.context_info) && empty (clear_context_info l).context_info

all_pass :
    (miscellaneous && channel_sharing && add_to_context_info && add_duplicate && overwrite_value
      && remove_last && remove_none_existing && remove_from_empty && clear_all)
    ≡ true
unfolding make_logger instance_of create_channel new_manager c_string until_nul add_context_key
    remove_context_key clear_context_info empty contains of_list update_key erase clear equals
    all_in found_as find insert_or_assign Map.contains Map.erase decimal
    octo_logger_cpp.Prelude.Decimal.digits_before
all_pass = refl
