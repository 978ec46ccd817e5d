-- ===== src/UnitTests/Logger/Tables.antt =====
-- unittests/src/logger-tests.cpp: the sections "Add Bulk" and "Has Key In ContextInfo".
use octo_logger_cpp.Prelude.{◌≡◌, refl, Bool, true, false, not, ◌&&◌, List, [], ◌∷◌}
use octo_logger_cpp.Prelude.Text.{Text, text_Eq, codes}
use octo_logger_cpp.Prelude.Map.{find, insert_or_assign}
use octo_logger_cpp.Prelude.Map
use octo_logger_cpp.Context.{
  ContextInfo, contains, update, update_key, clear, equals, all_in, found_as,
}
use octo_logger_cpp.Channel.{c_string, until_nul}
use octo_logger_cpp.Manager.{new_manager, create_channel}
use octo_logger_cpp.Logger.{
  instance_of, make_logger, add_context_keys, has_context_key, clear_context_info,
}
use octo_logger_cpp.UnitTests.Logger.{logger, info_matches}

record BulkData : Type 0 where
  context_info : ContextInfo
  existing_context_info : ContextInfo
  expected_result : ContextInfo

abbrev bulk_data : List BulkData
bulk_data =
    record { context_info = []; existing_context_info = []; expected_result = [] }
    ∷ record {
      context_info = [];
      existing_context_info =
          (codes "test_key_1", codes "test_value_1")
          ∷ (codes "test_key_2", codes "test_value_2")
          ∷ [];
      expected_result =
          (codes "test_key_1", codes "test_value_1")
          ∷ (codes "test_key_2", codes "test_value_2")
          ∷ [];
    }
    ∷ record {
      context_info =
          (codes "test_key_1", codes "test_value_1")
          ∷ (codes "test_key_2", codes "test_value_2")
          ∷ [];
      existing_context_info = [];
      expected_result =
          (codes "test_key_1", codes "test_value_1")
          ∷ (codes "test_key_2", codes "test_value_2")
          ∷ [];
    }
    ∷ record {
      context_info =
          (codes "test_key_1", codes "test_value_1")
          ∷ (codes "test_key_2", codes "test_value_2")
          ∷ [];
      existing_context_info =
          (codes "test_key_3", codes "test_value_3")
          ∷ (codes "test_key_4", codes "test_value_4")
          ∷ [];
      expected_result =
          (codes "test_key_1", codes "test_value_1")
          ∷ (codes "test_key_2", codes "test_value_2")
          ∷ (codes "test_key_3", codes "test_value_3")
          ∷ (codes "test_key_4", codes "test_value_4")
          ∷ [];
    }
    ∷ record {
      context_info = (codes "test_key_2", codes "test_value_2_overwrite") ∷ [];
      existing_context_info =
          (codes "test_key_1", codes "test_value_1")
          ∷ (codes "test_key_2", codes "test_value_2")
          ∷ (codes "test_key_3", codes "test_value_3")
          ∷ [];
      expected_result =
          (codes "test_key_1", codes "test_value_1")
          ∷ (codes "test_key_2", codes "test_value_2_overwrite")
          ∷ (codes "test_key_3", codes "test_value_3")
          ∷ [];
    }
    ∷ record {
      context_info =
          (codes "test_key_1", codes "test_value_1_overwrite")
          ∷ (codes "test_key_2", codes "test_value_2_overwrite")
          ∷ (codes "test_key_3", codes "test_value_3_overwrite")
          ∷ [];
      existing_context_info =
          (codes "test_key_1", codes "test_value_1")
          ∷ (codes "test_key_2", codes "test_value_2")
          ∷ (codes "test_key_3", codes "test_value_3")
          ∷ [];
      expected_result =
          (codes "test_key_1", codes "test_value_1_overwrite")
          ∷ (codes "test_key_2", codes "test_value_2_overwrite")
          ∷ (codes "test_key_3", codes "test_value_3_overwrite")
          ∷ [];
    }
    ∷ []

-- context_info_getter() = ..., and add_context_keys
abbrev add_bulk : List BulkData → Bool
add_bulk [] = true
add_bulk (row ∷ rows) =
    info_matches row.expected_result (
      add_context_keys row.context_info
        (record logger { context_info = row.existing_context_info }))
    && add_bulk rows

record KeyData : Type 0 where
  key : Text
  context_info : ContextInfo
  expected_result : Bool

abbrev key_data : List KeyData
key_data =
    record { key = codes "empty"; context_info = []; expected_result = false }
    ∷ record {
      key = codes "test_no_such_key";
      context_info =
          (codes "test_key_1", codes "test_value_1")
          ∷ (codes "test_key_2", codes "test_value_2")
          ∷ [];
      expected_result = false;
    }
    ∷ record {
      key = codes "test_has_key";
      context_info =
          (codes "test_key_1", codes "test_value_1")
          ∷ (codes "test_key_2", codes "test_value_2")
          ∷ (codes "test_has_key", codes "some_value")
          ∷ [];
      expected_result = true;
    }
    ∷ record {
      key = [];
      context_info =
          (codes "test_key_1", codes "test_value_1")
          ∷ (codes "test_key_2", codes "test_value_2")
          ∷ ([], codes "some_value")
          ∷ [];
      expected_result = true;
    }
    ∷ record {
      key = [];
      context_info =
          (codes "test_key_1", codes "test_value_1")
          ∷ (codes "test_key_2", codes "test_value_2")
          ∷ [];
      expected_result = false;
    }
    ∷ []

abbrev same : Bool → Bool → Bool
same true b = b
same false b = not b

abbrev has_key : List KeyData → Bool
has_key [] = true
has_key (row ∷ rows) =
    same (has_context_key row.key (add_context_keys row.context_info (clear_context_info logger)))
      row.expected_result
    && has_key rows

all_pass : (add_bulk bulk_data && has_key key_data) ≡ true
unfolding make_logger instance_of create_channel new_manager c_string until_nul add_context_keys
    has_context_key clear_context_info contains update update_key clear equals all_in found_as find
    insert_or_assign Map.contains
all_pass = refl
