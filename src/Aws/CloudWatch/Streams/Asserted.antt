-- ===== src/Aws/CloudWatch/Streams/Asserted.antt =====
-- How assert_and_create_log_stream ends.
use octo_logger_cpp.Prelude.{
  ◌≡◌, ◌≢◌, ◌∙◌, ap, refl, true, false, ◌||◌, List, [], ◌∷◌, ◌++◌, some, Bool-cases, inl, inr, ◌⊎◌,
  arith,
}
use octo_logger_cpp.Prelude.Text.{Text, text_eq, text_eq_iff, codes}
use octo_logger_cpp.Aws.CloudWatch.{
  Client, CloudWatchSink, Outcome, success, failure, Variables, Report, using_aws_lambda_logging,
  report_logger_error,
}
use octo_logger_cpp.Aws.CloudWatch.Streams.{
  holds_name, insert_name, stream_names, with_client, already_exists, stream_created, create_stream,
  streams_described, assert_and_create_log_stream,
}

holds-insert_name :
    (name : Text) (names : List Text) → holds_name name (insert_name name names) ≡ true
unfolding holds_name
holds-insert_name name names = elim (Bool-cases (holds_name name names)) [
  | inl y ↦ rw (y, y) refl
  | inr n ↦ rw n (ground (arith, text_eq_iff name name))
]

abbrev pub creation_failed : Text → Text → Report
creation_failed name error = record {
  report_message = codes "failed to create stream";
  report_name = name;
  report_error = error;
}

-- The names in an answer to DescribeLogStreams.
abbrev pub described : Outcome (List (Text × Text)) → List Text
described (failure error) = []
described (success streams) = stream_names streams

-- What the service answers to the request for a new stream says that there is one.
abbrev pub IsMade : Outcome (Unit {0}) → Type 0
IsMade (success r) = Unit {0}
IsMade (failure error) = error ≡ codes "The specified log stream already exists"

-- The stream is known now and nothing is reported, or the failure to make it is. `made` is the service's
-- answer to the request for a new stream.
abbrev pub Created :
    {S : Type 0} → Text → Outcome (Unit {0}) → CloudWatchSink S → CloudWatchSink S → Type 0
Created name made s t =
    (IsMade made × (holds_name name t.existing_log_streams ≡ true) × (t.reports ≡ s.reports))
    ⊎ ((error : Text) × (made ≡ failure error)
        × (error ≢ codes "The specified log stream already exists")
        × (t.existing_log_streams ≡ s.existing_log_streams)
        × (t.reports ≡ s.reports ++ creation_failed name error ∷ []))

module _ (C : Client) where
  stream_created-Created :
      (name : Text) (o : Outcome (Unit {0})) (s : CloudWatchSink C.State)
      → Created name o s (stream_created C name o s)
  unfolding report_logger_error
  stream_created-Created name (success r) s =
      inl (tt, holds-insert_name name s.existing_log_streams, refl)
  stream_created-Created name (failure error) s =
      let same = text_eq_iff error (already_exists C) in
      elim (Bool-cases (text_eq error (already_exists C))) [
        | inl y ↦ rw y (inl (same.0 y, holds-insert_name name s.existing_log_streams, refl))
        | inr n ↦ rw n (inr (error, refl, (λ e. let y = same.1 e in cc), refl, refl))
      ]

  -- The answers to the two requests that may be made, one after the other.
  abbrev pub asked : Text → CloudWatchSink C.State → Outcome (List (Text × Text)) × C.State
  asked name s = C.describe_log_streams s.client s.log_group_name (some name)

  abbrev pub made : Text → CloudWatchSink C.State → Outcome (Unit {0}) × C.State
  made name s = C.create_log_stream (asked name s).1 s.log_group_name name

  -- The stream is found, and known afterwards with nothing more asked; or it is not, and one is asked for.
  abbrev pub Known : Text → CloudWatchSink C.State → CloudWatchSink C.State → Type 0
  Known name s t =
      ((holds_name name (described (asked name s).0) ≡ true)
        × (holds_name name t.existing_log_streams ≡ true)
        × (t.reports ≡ s.reports)
        × (t.client ≡ (asked name s).1))
      ⊎ ((holds_name name (described (asked name s).0) ≡ false)
          × Created name (made name s).0 s t
          × (t.client ≡ (made name s).1))

  stream_created-client :
      (name : Text) (o : Outcome (Unit {0})) (s : CloudWatchSink C.State)
      → (stream_created C name o s).client ≡ s.client
  unfolding report_logger_error
  stream_created-client name (success r) s = refl
  stream_created-client name (failure error) s =
      elim (Bool-cases (text_eq error (already_exists C))) [ inl y ↦ rw y refl | inr n ↦ rw n refl ]

  create_stream-Known :
      (name : Text) (s : CloudWatchSink C.State)
      → holds_name name (described (asked name s).0) ≡ false
      → Known name s (create_stream C name (with_client (asked name s) s))
  create_stream-Known name s h =
      let t = with_client (made name s) s in
      inr (
        h,
        stream_created-Created name (made name s).0 t,
        stream_created-client name (made name s).0 t,
      )

  streams_described-Known :
      (name : Text) (s : CloudWatchSink C.State) (o : Outcome (List (Text × Text)))
      → (asked name s).0 ≡ o
      → Known name s (streams_described C name o (with_client (asked name s) s))
  unfolding holds_name
  streams_described-Known name s (failure error) e =
      create_stream-Known name s (ap (λ o. holds_name name (described o)) e ∙ refl)
  streams_described-Known name s (success streams) e =
      let found = ap (λ o. holds_name name (described o)) e in
      elim (Bool-cases (holds_name name (stream_names streams))) [
        | inl y ↦ rw y (inl (found ∙ y, holds-insert_name name s.existing_log_streams, refl, refl))
        | inr n ↦ rw n (create_stream-Known name s (found ∙ n))
      ]

-- With the streams of AWS Lambda, and for a stream that is known, nothing is asked and nothing changes. In
-- every other case the sink asks which streams there are. If the stream is among them, it is known afterwards,
-- no error is reported and no more is asked. If not, or without an answer, it asks for the stream: if that is
-- made, or refused because it is there, it is known afterwards and no error is reported; else that error is
-- reported, and the same streams are known as before.
pub assert_and_create_log_stream-Known :
    (C : Client) (vars : Variables) (name : Text) (s : CloudWatchSink C.State)
    → let t = assert_and_create_log_stream C vars name s in
      (((using_aws_lambda_logging vars s || holds_name name s.existing_log_streams) ≡ true)
        × (t ≡ s))
      ⊎ (((using_aws_lambda_logging vars s || holds_name name s.existing_log_streams) ≡ false)
          × Known C name s t)
unfolding assert_and_create_log_stream
assert_and_create_log_stream-Known C vars name s =
    elim (Bool-cases (using_aws_lambda_logging vars s)) [
      | inl y ↦ rw y (inl (refl, refl))
      | inr n ↦ elim (Bool-cases (holds_name name s.existing_log_streams)) [
        | inl y ↦ rw (n, y) (inl (refl, refl))
        | inr k ↦ rw (n, k) (inr (refl, streams_described-Known C name s (asked C name s).0 refl))
      ]
    ]
