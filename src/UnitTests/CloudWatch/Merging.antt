-- ===== src/UnitTests/CloudWatch/Merging.antt =====
-- unittests/src/cloudwatch-sink-tests.cpp: the sections "Init Basic Info", "Init Empty Object" and
-- "Init With ContextInfo".
use octo_logger_cpp.Prelude.{◌≡◌, refl, Bool, true, false, ◌&&◌, List, [], ◌∷◌}
use octo_logger_cpp.Prelude.Text.{Text, text_Eq, codes}
use octo_logger_cpp.Prelude.Map.{Map, find, insert_or_assign}
use octo_logger_cpp.Prelude.Map
use octo_logger_cpp.Context.{ContextInfo, update, update_key, all_in, found_as, equals}
use octo_logger_cpp.Channel.{until_nul, c_string}
use octo_logger_cpp.Manager.{
  new_manager, create_channel, replace_global_context_info, update_global_context_info,
}
use octo_logger_cpp.Logger.{instance_of, make_logger, log, make_log}
use octo_logger_cpp.Sink.{add_missing}
use octo_logger_cpp.Sink.Destination.{Json, null, object}
use octo_logger_cpp.Aws.CloudWatch.Destination.{init_context_info_in}
use octo_logger_cpp.Aws.CloudWatch.Format.{init_context_info}
use octo_logger_cpp.UnitTests.CloudWatch.{
  fixture, get_log, system, json_matches, with_log, all_rows, json_equals,
}

record TestData : Type 0 where
  session_id : Text
  dst : Json
  context_info : ContextInfo
  expected_result : Map Text Text

abbrev test_data : List TestData
test_data =
    record {
      session_id = codes "52c1fdd2-5987-49e9-8e30-6fbaf08b40dc";
      dst = null;
      context_info =
          (codes "property_1", codes "property 1 value")
          ∷ (codes "property_2", codes "property 2 value")
          ∷ [];
      expected_result =
          (codes "session_id", codes "52c1fdd2-5987-49e9-8e30-6fbaf08b40dc")
          ∷ (codes "property_1", codes "property 1 value")
          ∷ (codes "property_2", codes "property 2 value")
          ∷ [];
    }
    ∷ record {
      session_id = codes "3c261af5-db38-4b5f-81d8-9f7cb9003fee";
      dst = object ((codes "property_1", codes "property 1 value") ∷ []);
      context_info =
          (codes "property_2", codes "property 2 value")
          ∷ (codes "property_3", codes "property 3 value")
          ∷ [];
      expected_result =
          (codes "session_id", codes "3c261af5-db38-4b5f-81d8-9f7cb9003fee")
          ∷ (codes "property_1", codes "property 1 value")
          ∷ (codes "property_2", codes "property 2 value")
          ∷ (codes "property_3", codes "property 3 value")
          ∷ [];
    }
    ∷ record {
      session_id = codes "79f716c4-6dba-4018-a298-dc96fb3ccfb2";
      dst = object ((codes "property_1", codes "property 1 value") ∷ []);
      context_info =
          (codes "property_1", codes "different property 1 value which should be ignored")
          ∷ (codes "property_2", codes "property 2 value")
          ∷ [];
      expected_result =
          (codes "session_id", codes "79f716c4-6dba-4018-a298-dc96fb3ccfb2")
          ∷ (codes "property_1", codes "property 1 value")
          ∷ (codes "property_2", codes "property 2 value")
          ∷ [];
    }
    ∷ record {
      session_id = [];
      dst = object ((codes "property_1", codes "property 1 value") ∷ []);
      context_info =
          (codes "session_id", codes "69426e8b-83a8-47f1-9e09-87857819db75")
          ∷ (codes "property_2", codes "property 2 value")
          ∷ [];
      expected_result =
          (codes "session_id", codes "69426e8b-83a8-47f1-9e09-87857819db75")
          ∷ (codes "property_1", codes "property 1 value")
          ∷ (codes "property_2", codes "property 2 value")
          ∷ [];
    }
    ∷ record {
      session_id = [];
      dst = object ((codes "property_1", codes "property 1 value") ∷ []);
      context_info = (codes "session_id", []) ∷ (codes "property_2", codes "property 2 value") ∷ [];
      expected_result =
          (codes "session_id", [])
          ∷ (codes "property_1", codes "property 1 value")
          ∷ (codes "property_2", codes "property 2 value")
          ∷ [];
    }
    ∷ record {
      session_id = [];
      dst = object (
          (codes "session_id", codes "6101ce70-2b03-4d0d-9b4e-7bf646da14b7")
          ∷ (codes "property_1", codes "property 1 value")
          ∷ []);
      context_info =
          (codes "session_id", codes "b89354d6-7784-4917-a5a0-10dddd27d6de")
          ∷ (codes "property_2", codes "property 2 value")
          ∷ [];
      expected_result =
          (codes "session_id", codes "6101ce70-2b03-4d0d-9b4e-7bf646da14b7")
          ∷ (codes "property_1", codes "property 1 value")
          ∷ (codes "property_2", codes "property 2 value")
          ∷ [];
    }
    ∷ record {
      session_id = [];
      dst = object ((codes "session_id", []) ∷ (codes "property_1", codes "property 1 value") ∷ []);
      context_info =
          (codes "session_id", codes "b89354d6-7784-4917-a5a0-10dddd27d6de")
          ∷ (codes "property_2", codes "property 2 value")
          ∷ [];
      expected_result =
          (codes "session_id", [])
          ∷ (codes "property_1", codes "property 1 value")
          ∷ (codes "property_2", codes "property 2 value")
          ∷ [];
    }
    ∷ record {
      session_id = codes "8a69e3db-5f3e-4356-92de-ded1c5ec4424";
      dst = object ((codes "property_1", codes "property 1 value") ∷ []);
      context_info = (codes "property_2", codes "property 2 value") ∷ [];
      expected_result =
          (codes "session_id", codes "8a69e3db-5f3e-4356-92de-ded1c5ec4424")
          ∷ (codes "property_1", codes "property 1 value")
          ∷ (codes "property_2", codes "property 2 value")
          ∷ [];
    }
    ∷ record {
      session_id = codes "fb949831-09ca-4016-b455-5a2a1fa65e22";
      dst = object (
          (codes "session_id", codes "33ebf6ff-7765-4fec-8100-d25cc6eb613b")
          ∷ (codes "property_1", codes "property 1 value")
          ∷ []);
      context_info = (codes "property_2", codes "property 2 value") ∷ [];
      expected_result =
          (codes "session_id", codes "fb949831-09ca-4016-b455-5a2a1fa65e22")
          ∷ (codes "property_1", codes "property 1 value")
          ∷ (codes "property_2", codes "property 2 value")
          ∷ [];
    }
    ∷ record {
      session_id = codes "70205245-99bd-458d-b27a-59c41db99665";
      dst = object ((codes "session_id", []) ∷ (codes "property_1", codes "property 1 value") ∷ []);
      context_info =
          (codes "session_id", codes "c8f3e777-dcbc-4522-b63d-ec7635e30eb3")
          ∷ (codes "property_2", codes "property 2 value")
          ∷ [];
      expected_result =
          (codes "session_id", codes "70205245-99bd-458d-b27a-59c41db99665")
          ∷ (codes "property_1", codes "property 1 value")
          ∷ (codes "property_2", codes "property 2 value")
          ∷ [];
    }
    ∷ record {
      session_id = codes "a6512280-a15e-414c-a937-10e9d248b997";
      dst = object (
          (codes "session_id", codes "c768bd36-ea3c-405c-bc34-8ef52dc96b54")
          ∷ (codes "property_1", codes "property 1 value")
          ∷ []);
      context_info =
          (codes "session_id", codes "b5d84d1c-c55b-4024-8e87-0f263d51aa54")
          ∷ (codes "property_2", codes "property 2 value")
          ∷ [];
      expected_result =
          (codes "session_id", codes "a6512280-a15e-414c-a937-10e9d248b997")
          ∷ (codes "property_1", codes "property 1 value")
          ∷ (codes "property_2", codes "property 2 value")
          ∷ [];
    }
    ∷ record {
      session_id = [];
      dst = object ((codes "property_1", codes "property 1 value") ∷ []);
      context_info = (codes "property_2", codes "property 2 value") ∷ [];
      expected_result =
          (codes "property_1", codes "property 1 value")
          ∷ (codes "property_2", codes "property 2 value")
          ∷ [];
    }
    ∷ []

abbrev init_basic_info : Bool
init_basic_info =
    let id = codes "408aa391-a07e-4692-a02b-a17e8950fa24" in
    with_log
      (λ l.
        json_equals (object ((codes "session_id", id) ∷ []))
          (object (init_context_info system false l [] [])))
      (get_log id [] fixture.1)

abbrev init_empty_object : Bool
init_empty_object =
    with_log (λ l. json_matches (object []) (init_context_info_in system false l [] [] null))
      (get_log [] [] fixture.1)

abbrev init_with_context_info : TestData → Bool
init_with_context_info row =
    with_log
      (λ l.
        json_matches (object row.expected_result)
          (init_context_info_in system false l row.context_info [] row.dst))
      (get_log row.session_id [] fixture.1)

all_pass :
    (init_basic_info && init_empty_object && all_rows init_with_context_info test_data) ≡ true
unfolding init_context_info_in init_context_info add_missing find insert_or_assign Map.contains
    until_nul update update_key all_in found_as equals replace_global_context_info
    update_global_context_info log make_log make_logger c_string instance_of create_channel
    new_manager
all_pass = refl
