-- ===== src/Aws/CloudWatch/Streams.antt =====
-- Log groups and log streams: how the sink finds them, and makes those that are missing.
pub mod Asserted
use octo_logger_cpp.Prelude.{
  ℕ, Bool, true, false, ◌||◌, Option, none, some, List, [], ◌∷◌, ◌++◌, if◌then◌else◌,
}
use octo_logger_cpp.Prelude.Text.{Text, text_Eq, text_eq, is_empty, codes}
use octo_logger_cpp.Prelude.Map.{Map, insert_or_assign}
use octo_logger_cpp.Aws.CloudWatch.{
  Client, CloudWatchSink, Outcome, success, failure, Variables, using_aws_lambda_logging,
  report_logger_error,
}

-- The loops that look for a name.
unfoldable pub holds_name : Text → List Text → Bool
holds_name name [] = false
holds_name name (n ∷ ns) = text_eq n name || holds_name name ns

-- The names of the streams in an answer.
abbrev pub stream_names : List (Text × Text) → List Text
stream_names [] = []
stream_names ((name, token) ∷ streams) = name ∷ stream_names streams

-- std::set::insert
abbrev pub insert_name : Text → List Text → List Text
insert_name name names = if holds_name name names then names else name ∷ names

module _ {S : Type 0} where
  abbrev pub with_client : {A : Type 0} → A × S → CloudWatchSink S → CloudWatchSink S
  with_client r s = record s { client = r.1 }

  abbrev pub add_stream : Text → CloudWatchSink S → CloudWatchSink S
  add_stream name s = record s { existing_log_streams = insert_name name s.existing_log_streams }

module _ (C : Client) where
  abbrev pub group_created : Outcome (Unit {0}) → CloudWatchSink C.State → CloudWatchSink C.State
  group_created (success r) s = s
  group_created (failure error) s =
      report_logger_error (codes "failed to create log group") s.log_group_name error s

  -- SetTags is called only if there are tags; without, the request has none.
  abbrev pub create_group_unless : Bool → CloudWatchSink C.State → CloudWatchSink C.State
  create_group_unless true s = s
  create_group_unless false s =
      let r = C.create_log_group s.client s.log_group_name s.log_group_tags in
      group_created r.0 (with_client r s)

  abbrev pub groups_described :
      Outcome (List Text) → CloudWatchSink C.State → CloudWatchSink C.State
  groups_described (success groups) s = create_group_unless (holds_name s.log_group_name groups) s
  groups_described (failure error) s =
      report_logger_error (codes "failed to describe log group") s.log_group_name error s

  unfoldable pub assert_and_create_log_group :
      Variables → CloudWatchSink C.State → CloudWatchSink C.State
  assert_and_create_log_group vars s =
      if using_aws_lambda_logging vars s
      then s
      else let r = C.describe_log_groups s.client s.log_group_name in
        groups_described r.0 (with_client r s)

  abbrev pub already_exists : Text
  already_exists = codes "The specified log stream already exists"

  abbrev pub stream_created :
      Text → Outcome (Unit {0}) → CloudWatchSink C.State → CloudWatchSink C.State
  stream_created name (success r) s = add_stream name s
  stream_created name (failure error) s =
      if text_eq error already_exists
      then add_stream name s
      else report_logger_error (codes "failed to create stream") name error s

  abbrev pub create_stream : Text → CloudWatchSink C.State → CloudWatchSink C.State
  create_stream name s =
      let r = C.create_log_stream s.client s.log_group_name name in
      stream_created name r.0 (with_client r s)

  -- If the streams cannot be described the stream is made all the same.
  abbrev pub streams_described :
      Text → Outcome (List (Text × Text)) → CloudWatchSink C.State → CloudWatchSink C.State
  streams_described name (failure error) s = create_stream name s
  streams_described name (success streams) s =
      if holds_name name (stream_names streams) then add_stream name s else create_stream name s

  unfoldable pub assert_and_create_log_stream :
      Variables → Text → CloudWatchSink C.State → CloudWatchSink C.State
  assert_and_create_log_stream vars name s =
      if using_aws_lambda_logging vars s
      then s
      else if holds_name name s.existing_log_streams
      then s
      else let r = C.describe_log_streams s.client s.log_group_name (some name) in
        streams_described name r.0 (with_client r s)

  -- One round of the loop over the described streams.
  unfoldable pub note_streams :
      List (Text × Text) → List Text → CloudWatchSink C.State → List Text × CloudWatchSink C.State
  note_streams [] names s = (names, s)
  note_streams ((name, token) ∷ streams) names s = note_streams streams (insert_name name names) (
      if is_empty token
      then s
      else record s { sequence_tokens = insert_or_assign name token s.sequence_tokens })

  abbrev pub streams_listed :
      Outcome (List (Text × Text)) → CloudWatchSink C.State → List Text × CloudWatchSink C.State
  streams_listed (success streams) s = note_streams streams [] s
  streams_listed (failure error) s =
      ([], report_logger_error (codes "failed to describe streams") s.log_group_name error s)

  -- getenv cannot answer null here: both variables are set.
  abbrev pub stream_or_none : Option Text → List Text
  stream_or_none none = []
  stream_or_none (some name) = name ∷ []

  unfoldable pub list_existing_log_streams :
      Variables → CloudWatchSink C.State → List Text × CloudWatchSink C.State
  list_existing_log_streams vars s =
      if using_aws_lambda_logging vars s
      then (stream_or_none vars.stream_variable, s)
      else let r = C.describe_log_streams s.client s.log_group_name none in
        streams_listed r.0 (with_client r s)
