-- ===== src/UnitTests/CloudWatch.antt =====
-- unittests/src/cloudwatch-sink-tests.cpp: the fixture of the tests of init_context_info, and their matchers.
-- Its children have the tables of the sections and run them.
mod Merging
mod Precedence
mod Updating
use octo_logger_cpp.Prelude.{ℕ, Bool, true, false, ◌&&◌, Option, none, some, List, [], ◌∷◌}
use octo_logger_cpp.Prelude.Text.{Text, text_eq, codes}
use octo_logger_cpp.Prelude.Result.{Result, ok, throw, runtime_error, out_of_range}
use octo_logger_cpp.Level.{LogLevel}
use octo_logger_cpp.Context.{ContextInfo, equals}
use octo_logger_cpp.Channel.{Logger, Log}
use octo_logger_cpp.Manager.{Manager}
use octo_logger_cpp.Logger.{no_manager, managed, instance_of, make_logger, log}
use octo_logger_cpp.Sink.{Environment}
use octo_logger_cpp.Sink.Destination.{Json, null, object, other}

-- CloudWatchSinkTestsFixture: the manager, and a logger on the channel "test_logger".
abbrev pub fixture : Logger × Manager
fixture =
    make_logger record { bytes = codes "test_logger"; after = [] }
      (managed (
        instance_of
          (no_manager record { channel_heap = []; sink_heap = []; calls = []; released = [] })))

abbrev pub get_log : Text → ContextInfo → Manager → Result (Option Log)
get_log id ci m = log LogLevel.quiet id ci fixture.0 m.memory.channel_heap

-- The thread's id, as a stream writes it.
abbrev pub thread_id : Text
thread_id = codes "139637976727232"

abbrev pub system : Environment
system = record {
  localtime_r = λ t tm. some tm;
  strftime = λ f tm. f;
  process_id = codes "7";
  thread_id = thread_id;
  json_dump = λ j. none;
}

-- operator== of JSON values
abbrev pub json_equals : Json → Json → Bool
json_equals null null = true
json_equals (object a) (object b) = equals a b
json_equals (other m) (other n) = text_eq m n
json_equals null (object b) = false
json_equals null (other n) = false
json_equals (object a) null = false
json_equals (object a) (other n) = false
json_equals (other m) null = false
json_equals (other m) (object b) = false

-- REQUIRE_NOTHROW, and JSONEquals of what was made
abbrev pub json_matches : Json → Result Json → Bool
json_matches expected (ok j) = json_equals expected j
json_matches expected (throw x) = false

-- REQUIRE_THROWS_WITH
abbrev pub throws_with : Text → Result Json → Bool
throws_with message (throw (runtime_error m)) = text_eq m message
throws_with message (throw out_of_range) = false
throws_with message (ok j) = false

-- A check of what is made from the log of a row.
abbrev pub with_log : (Log → Bool) → Result (Option Log) → Bool
with_log check (ok (some l)) = check l
with_log check (ok none) = false
with_log check (throw x) = false

-- for (auto& row : test_data)
abbrev pub all_rows : {A : Type 0} → (A → Bool) → List A → Bool
all_rows check [] = true
all_rows check (row ∷ rows) = check row && all_rows check rows
