-- ===== src/UnitTests/CloudWatch/Precedence.antt =====
-- unittests/src/cloudwatch-sink-tests.cpp: the section "Init With Log, Logger and Global ContextInfos".
use octo_logger_cpp.Prelude.{◌≡◌, refl, Bool, true, false, List, [], ◌∷◌}
use octo_logger_cpp.Prelude.Text.{Text, text_Eq, codes}
use octo_logger_cpp.Prelude.Map.{Map, find, insert_or_assign}
use octo_logger_cpp.Prelude.Map
use octo_logger_cpp.Context.{ContextInfo, update, update_key, all_in, found_as, equals}
use octo_logger_cpp.Channel.{until_nul, c_string}
use octo_logger_cpp.Manager.{
  new_manager, create_channel, replace_global_context_info, update_global_context_info,
}
use octo_logger_cpp.Logger.{instance_of, make_logger, log, make_log}
use octo_logger_cpp.Sink.{add_missing}
use octo_logger_cpp.Sink.Destination.{Json, null, object}
use octo_logger_cpp.Aws.CloudWatch.Destination.{init_context_info_in}
use octo_logger_cpp.Aws.CloudWatch.Format.{init_context_info}
use octo_logger_cpp.UnitTests.CloudWatch.{
  fixture, get_log, system, json_matches, with_log, all_rows,
}

record TestData : Type 0 where
  session_id : Text
  dst : Json
  log_context_info : ContextInfo
  logger_context_info : ContextInfo
  global_context_info : ContextInfo
  expected_result : Map Text Text

abbrev test_data : List TestData
test_data =
    record {
      session_id = codes "52c1fdd2-5987-49e9-8e30-6fbaf08b40dc";
      dst = null;
      log_context_info = (codes "property_1", codes "log_property 1 value") ∷ [];
      logger_context_info = (codes "property_2", codes "logger_property 2 value") ∷ [];
      global_context_info = (codes "property_3", codes "global_property 3 value") ∷ [];
      expected_result =
          (codes "session_id", codes "52c1fdd2-5987-49e9-8e30-6fbaf08b40dc")
          ∷ (codes "property_1", codes "log_property 1 value")
          ∷ (codes "property_2", codes "logger_property 2 value")
          ∷ (codes "property_3", codes "global_property 3 value")
          ∷ [];
    }
    ∷ record {
      session_id = codes "3c261af5-db38-4b5f-81d8-9f7cb9003fee";
      dst = null;
      log_context_info =
          (codes "property_1", codes "log_property 1 value    (overrides)")
          ∷ (codes "property_2", codes "log_property 2 value")
          ∷ [];
      logger_context_info =
          (codes "property_1", codes "logger_property 1 value (overriden)")
          ∷ (codes "property_3", codes "logger_property 3 value")
          ∷ [];
      global_context_info = (codes "property_4", codes "global_property 4 value") ∷ [];
      expected_result =
          (codes "session_id", codes "3c261af5-db38-4b5f-81d8-9f7cb9003fee")
          ∷ (codes "property_1", codes "log_property 1 value    (overrides)")
          ∷ (codes "property_2", codes "log_property 2 value")
          ∷ (codes "property_3", codes "logger_property 3 value")
          ∷ (codes "property_4", codes "global_property 4 value")
          ∷ [];
    }
    ∷ record {
      session_id = codes "69426e8b-83a8-47f1-9e09-87857819db75";
      dst = null;
      log_context_info = (codes "property_1", codes "log_property 1 value") ∷ [];
      logger_context_info =
          (codes "property_2", codes "logger_property 2 value (overrides)")
          ∷ (codes "property_3", codes "logger_property 3 value")
          ∷ [];
      global_context_info =
          (codes "property_2", codes "global_property 2 value (overriden)")
          ∷ (codes "property_4", codes "global_property 4 value")
          ∷ [];
      expected_result =
          (codes "session_id", codes "69426e8b-83a8-47f1-9e09-87857819db75")
          ∷ (codes "property_1", codes "log_property 1 value")
          ∷ (codes "property_2", codes "logger_property 2 value (overrides)")
          ∷ (codes "property_3", codes "logger_property 3 value")
          ∷ (codes "property_4", codes "global_property 4 value")
          ∷ [];
    }
    ∷ record {
      session_id = codes "5e761af5-db38-4b5f-81d8-9f7cb9003fe6";
      dst = null;
      log_context_info =
          (codes "property_1", codes "log_property 1 value    (overrides)")
          ∷ (codes "property_2", codes "log_property 2 value")
          ∷ [];
      logger_context_info = (codes "property_4", codes "logger_property 4 value") ∷ [];
      global_context_info =
          (codes "property_1", codes "global_property 1 value (overriden)")
          ∷ (codes "property_3", codes "global_property 3 value")
          ∷ [];
      expected_result =
          (codes "session_id", codes "5e761af5-db38-4b5f-81d8-9f7cb9003fe6")
          ∷ (codes "property_1", codes "log_property 1 value    (overrides)")
          ∷ (codes "property_2", codes "log_property 2 value")
          ∷ (codes "property_3", codes "global_property 3 value")
          ∷ (codes "property_4", codes "logger_property 4 value")
          ∷ [];
    }
    ∷ record {
      session_id = [];
      dst = object ((codes "property_1", codes "dst_property 1 value") ∷ []);
      log_context_info = (codes "property_2", codes "log_property 2 value") ∷ [];
      logger_context_info = (codes "property_3", codes "logger_property 3 value") ∷ [];
      global_context_info =
          (codes "session_id", []) ∷ (codes "property_4", codes "global_property 4 value") ∷ [];
      expected_result =
          (codes "session_id", [])
          ∷ (codes "property_1", codes "dst_property 1 value")
          ∷ (codes "property_2", codes "log_property 2 value")
          ∷ (codes "property_3", codes "logger_property 3 value")
          ∷ (codes "property_4", codes "global_property 4 value")
          ∷ [];
    }
    ∷ record {
      session_id = [];
      dst = object (
          (codes "session_id", codes "6101ce70-2b03-4d0d-9b4e-7bf646da14b7")
          ∷ (codes "property_1", codes "property 1 value")
          ∷ []);
      log_context_info = [];
      logger_context_info = [];
      global_context_info =
          (codes "session_id", codes "b89354d6-7784-4917-a5a0-10dddd27d6de")
          ∷ (codes "property_2", codes "property 2 value")
          ∷ [];
      expected_result =
          (codes "session_id", codes "6101ce70-2b03-4d0d-9b4e-7bf646da14b7")
          ∷ (codes "property_1", codes "property 1 value")
          ∷ (codes "property_2", codes "property 2 value")
          ∷ [];
    }
    ∷ record {
      session_id = [];
      dst = object ((codes "session_id", []) ∷ (codes "property_1", codes "property 1 value") ∷ []);
      log_context_info = [];
      logger_context_info = [];
      global_context_info =
          (codes "session_id", codes "b89354d6-7784-4917-a5a0-10dddd27d6de")
          ∷ (codes "property_2", codes "property 2 value")
          ∷ [];
      expected_result =
          (codes "session_id", [])
          ∷ (codes "property_1", codes "property 1 value")
          ∷ (codes "property_2", codes "property 2 value")
          ∷ [];
    }
    ∷ record {
      session_id = codes "70205245-99bd-458d-b27a-59c41db99665";
      dst = object ((codes "session_id", []) ∷ (codes "property_1", codes "property 1 value") ∷ []);
      log_context_info = [];
      logger_context_info = [];
      global_context_info =
          (codes "session_id", codes "c8f3e777-dcbc-4522-b63d-ec7635e30eb3")
          ∷ (codes "property_2", codes "property 2 value")
          ∷ [];
      expected_result =
          (codes "session_id", codes "70205245-99bd-458d-b27a-59c41db99665")
          ∷ (codes "property_1", codes "property 1 value")
          ∷ (codes "property_2", codes "property 2 value")
          ∷ [];
    }
    ∷ record {
      session_id = [];
      dst = object ((codes "property_1", codes "property 1 value") ∷ []);
      log_context_info = (codes "property_2", codes "property 2 value") ∷ [];
      logger_context_info = (codes "property_3", codes "property 3 value") ∷ [];
      global_context_info = (codes "property_4", codes "property 4 value") ∷ [];
      expected_result =
          (codes "property_1", codes "property 1 value")
          ∷ (codes "property_2", codes "property 2 value")
          ∷ (codes "property_3", codes "property 3 value")
          ∷ (codes "property_4", codes "property 4 value")
          ∷ [];
    }
    ∷ []

abbrev init_with_context_infos : TestData → Bool
init_with_context_infos row =
    with_log
      (λ l. json_matches (object row.expected_result) (
        init_context_info_in system false l row.logger_context_info row.global_context_info
          row.dst))
      (get_log row.session_id row.log_context_info
        (replace_global_context_info row.global_context_info fixture.1))

all_pass : all_rows init_with_context_infos test_data ≡ true
unfolding init_context_info_in init_context_info add_missing find insert_or_assign Map.contains
    until_nul update update_key all_in found_as equals replace_global_context_info
    update_global_context_info log make_log make_logger c_string instance_of create_channel
    new_manager
all_pass = refl
