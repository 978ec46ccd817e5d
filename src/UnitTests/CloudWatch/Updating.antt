-- ===== src/UnitTests/CloudWatch/Updating.antt =====
-- unittests/src/cloudwatch-sink-tests.cpp: the sections "Update Global ContextInfos", "With thread id" and
-- "Wrong Type".
use octo_logger_cpp.Prelude.{◌≡◌, refl, Bool, true, false, ◌++◌, ◌&&◌, List, [], ◌∷◌}
use octo_logger_cpp.Prelude.Text.{Text, text_Eq, codes}
use octo_logger_cpp.Prelude.Map.{Map, find, insert_or_assign}
use octo_logger_cpp.Prelude.Map
use octo_logger_cpp.Context.{ContextInfo, update, update_key, all_in, found_as, equals}
use octo_logger_cpp.Channel.{until_nul, c_string}
use octo_logger_cpp.Manager.{
  Manager, new_manager, create_channel, replace_global_context_info, update_global_context_info,
}
use octo_logger_cpp.Logger.{instance_of, make_logger, log, make_log}
use octo_logger_cpp.Sink.{add_missing}
use octo_logger_cpp.Sink.Destination.{Json, null, object, other}
use octo_logger_cpp.Aws.CloudWatch.Destination.{init_context_info_in}
use octo_logger_cpp.Aws.CloudWatch.Format.{init_context_info}
use octo_logger_cpp.UnitTests.CloudWatch.{
  fixture, get_log, system, thread_id, json_matches, throws_with, with_log, all_rows,
}

record TestData : Type 0 where
  session_id : Text
  dst : Json
  initial_global_context_info : ContextInfo
  update_with : ContextInfo
  expected_result : Map Text Text

abbrev test_data : List TestData
test_data =
    record {
      session_id = codes "52c1fdd2-5987-49e9-8e30-6fbaf08b40dc";
      dst = null;
      initial_global_context_info = (codes "property_1", codes "property 1 value") ∷ [];
      update_with = (codes "property_2", codes "property 2 value") ∷ [];
      expected_result =
          (codes "session_id", codes "52c1fdd2-5987-49e9-8e30-6fbaf08b40dc")
          ∷ (codes "property_1", codes "property 1 value")
          ∷ (codes "property_2", codes "property 2 value")
          ∷ [];
    }
    ∷ record {
      session_id = codes "3c261af5-db38-4b5f-81d8-9f7cb9003fee";
      dst = null;
      initial_global_context_info =
          (codes "property_1", codes "property 1 value (overriden)")
          ∷ (codes "property_2", codes "property 2 value")
          ∷ [];
      update_with =
          (codes "property_1", codes "property 1 value (overrides)")
          ∷ (codes "property_3", codes "property 3 value")
          ∷ [];
      expected_result =
          (codes "session_id", codes "3c261af5-db38-4b5f-81d8-9f7cb9003fee")
          ∷ (codes "property_1", codes "property 1 value (overrides)")
          ∷ (codes "property_2", codes "property 2 value")
          ∷ (codes "property_3", codes "property 3 value")
          ∷ [];
    }
    ∷ record {
      session_id = codes "69426e8b-83a8-47f1-9e09-87857819db75";
      dst = null;
      initial_global_context_info =
          (codes "property_1", codes "property 1 value")
          ∷ (codes "property_2", codes "property 2 value")
          ∷ [];
      update_with = [];
      expected_result =
          (codes "session_id", codes "69426e8b-83a8-47f1-9e09-87857819db75")
          ∷ (codes "property_1", codes "property 1 value")
          ∷ (codes "property_2", codes "property 2 value")
          ∷ [];
    }
    ∷ record {
      session_id = codes "5e761af5-db38-4b5f-81d8-9f7cb9003fe6";
      dst = null;
      initial_global_context_info = [];
      update_with =
          (codes "property_1", codes "property 1 value")
          ∷ (codes "property_2", codes "property 2 value")
          ∷ [];
      expected_result =
          (codes "session_id", codes "5e761af5-db38-4b5f-81d8-9f7cb9003fe6")
          ∷ (codes "property_1", codes "property 1 value")
          ∷ (codes "property_2", codes "property 2 value")
          ∷ [];
    }
    ∷ []

abbrev updated : TestData → Manager
updated row =
    update_global_context_info row.update_with
      (replace_global_context_info row.initial_global_context_info fixture.1)

-- The row with a sink that logs the thread's id, or not.
abbrev init_updated : Bool → TestData → Bool
init_updated log_thread_id row =
    let m = updated row in
    with_log
      (λ l.
        json_matches (object row.expected_result)
          (init_context_info_in system log_thread_id l [] m.global_context_info row.dst))
      (get_log row.session_id [] m)

abbrev thread_id_data : List TestData
thread_id_data =
    record {
      session_id = codes "52c1fdd2-5987-49e9-8e30-6fbaf08b40dc";
      dst = null;
      initial_global_context_info = (codes "property_1", codes "property 1 value") ∷ [];
      update_with = (codes "property_2", codes "property 2 value") ∷ [];
      expected_result =
          (codes "session_id", codes "52c1fdd2-5987-49e9-8e30-6fbaf08b40dc")
          ∷ (codes "property_1", codes "property 1 value")
          ∷ (codes "property_2", codes "property 2 value")
          ∷ (codes "thread_id", thread_id)
          ∷ [];
    }
    ∷ []

record WrongType : Type 0 where
  dst : Json
  expected_error : Text

abbrev base_error : Text
base_error = codes "Wrong context_info destination type "

-- The names are those that type_name() has for the types.
abbrev wrong_types : List WrongType
wrong_types =
    record { dst = other (codes "array"); expected_error = base_error ++ codes "array" }
    ∷ record { dst = other (codes "string"); expected_error = base_error ++ codes "string" }
    ∷ record { dst = other (codes "boolean"); expected_error = base_error ++ codes "boolean" }
    ∷ record { dst = other (codes "number"); expected_error = base_error ++ codes "number" }
    ∷ record { dst = other (codes "number"); expected_error = base_error ++ codes "number" }
    ∷ record { dst = other (codes "number"); expected_error = base_error ++ codes "number" }
    ∷ record { dst = other (codes "binary"); expected_error = base_error ++ codes "binary" }
    ∷ record { dst = other (codes "discarded"); expected_error = base_error ++ codes "discarded" }
    ∷ []

abbrev refuses : WrongType → Bool
refuses row =
    with_log
      (λ l. throws_with row.expected_error (init_context_info_in system false l [] [] row.dst))
      (get_log [] [] fixture.1)

all_pass :
    (all_rows (init_updated false) test_data
      && all_rows (init_updated true) thread_id_data
      && all_rows refuses wrong_types)
    ≡ true
unfolding init_context_info_in init_context_info add_missing find insert_or_assign Map.contains
    until_nul update update_key all_in found_as equals replace_global_context_info
    update_global_context_info log make_log make_logger c_string instance_of create_channel
    new_manager
all_pass = refl
