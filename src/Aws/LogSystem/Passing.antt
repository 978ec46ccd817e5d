-- ===== src/Aws/LogSystem/Passing.antt =====
-- What LogStream logs of what the SDK streams to it.
use octo_logger_cpp.Prelude.{
  ℕ, suc, ◌+◌, ◌≤◌, ◌≡◌, ◌≢◌, refl, ap, true, false, Option, none, some, List, [], ◌∷◌, ◌++◌,
  length, take, arith, Bool-cases, inl, inr, ◌⊎◌, All,
}
use octo_logger_cpp.Prelude.Text.{Text, codes, is_empty}
use octo_logger_cpp.Prelude.Result.{Result, ok, throw, Exception}
use octo_logger_cpp.Level.{LogLevel}
use octo_logger_cpp.Aws.Levels.{SanitizerTags, AwsLevel, aws_log_level_to_octo}
use octo_logger_cpp.Aws.Sanitizer.{
  Processed, redacted_text, redact, process_tag, holds_text, harmless_tags,
}
use octo_logger_cpp.Aws.Sanitizer.Bounds.{Sanitizes, process_tag-Sanitizes}
use octo_logger_cpp.Aws.LogSystem.{
  is_blank, find_last_not_of, trim_white_spaces, LogCall, Outcome, write_level, failure,
  write_processed, log_stream,
}

-- `t` is `s` without the blanks at its end.
pub record IsTrimmed (s t : Text) : Type 0 where
  pub blanks : Text
  pub joined : s ≡ t ++ blanks
  pub are_blank : All (λ c. is_blank c ≡ true) blanks
  pub last : (t ≡ []) ⊎ ((u : Text) × (c : ℕ) × (t ≡ u ++ c ∷ []) × (is_blank c ≡ false))

take-suc : (i c : ℕ) (s : Text) → take (suc i + 1) (c ∷ s) ≡ c ∷ take (i + 1) s
take-suc i c s = let e : suc i + 1 ≡ suc (i + 1) = omega arith in rw e

take_one : (c : ℕ) (s : Text) → take (0 + 1) (c ∷ s) ≡ c ∷ []
take_one c s = refl

IsTrimmed-cons : (c : ℕ) (s t : Text) → t ≢ [] → IsTrimmed s t → IsTrimmed (c ∷ s) (c ∷ t)
IsTrimmed-cons c s t ne h = record {
  blanks = h.blanks;
  joined = ap (λ r. c ∷ r) h.joined;
  are_blank = h.are_blank;
  last = elim h.last [
    | inl e ↦ absurd (ne e)
    | inr (u, d, e, n) ↦ inr (c ∷ u, d, ap (λ r. c ∷ r) e, n)
  ];
}

-- Either every byte is blank, or the text up to the one found is trimmed and not empty.
found-IsTrimmed :
    (s : Text)
    → ((find_last_not_of s ≡ none) × All (λ c. is_blank c ≡ true) s)
      ⊎ ((i : ℕ) × (find_last_not_of s ≡ some i)
          × (take (i + 1) s ≢ [])
          × IsTrimmed s (take (i + 1) s))
unfolding find_last_not_of
found-IsTrimmed [] = inl (refl, tt)
found-IsTrimmed (c ∷ s) = elim (found-IsTrimmed s) [
  | inr (i, e, ne, h) ↦ inr (
    suc i,
    rw e,
    rw (take-suc i c s) (λ k. cc),
    rw (take-suc i c s) (IsTrimmed-cons c s (take (i + 1) s) ne h),
  )
  | inl (e, b) ↦ elim (Bool-cases (is_blank c)) [
    | inl y ↦ inl (rw (e, y), (y, b))
    | inr n ↦ inr (
      0,
      rw (e, n),
      (λ k. cc),
      record { blanks = s; joined = refl; are_blank = b; last = inr ([], c, refl, n) },
    )
  ]
]

-- trim_white_spaces takes away the blanks, line feeds and tabs at the end, and nothing else.
pub trim_white_spaces-IsTrimmed : (s : Text) → IsTrimmed s (trim_white_spaces s)
unfolding trim_white_spaces
trim_white_spaces-IsTrimmed s = elim (found-IsTrimmed s) [
  | inl (e, b) ↦ rw e (record { blanks = s; joined = refl; are_blank = b; last = inl refl })
  | inr (i, e, ne, h) ↦ rw e h
]

-- The exception of a conversion of levels.
abbrev pub exception_of {ℓ} : {A : Type ℓ} → Result A → Option Exception
exception_of (ok l) = none
exception_of (throw x) = some x

-- The level of the SDK's logs in this library: there is none for Off, nor for a value without a name.
abbrev pub level_of : AwsLevel → Option LogLevel
level_of AwsLevel.off = none
level_of AwsLevel.fatal = some LogLevel.error
level_of AwsLevel.error = some LogLevel.error
level_of AwsLevel.warn = some LogLevel.warning
level_of AwsLevel.info = some LogLevel.info
level_of AwsLevel.debug = some LogLevel.debug
level_of AwsLevel.trace = some LogLevel.trace
level_of (AwsLevel.other n) = none

-- The one log of the text at that level, or none.
abbrev pub line_at : Option LogLevel → Text → Text → List LogCall
line_at none tag text = []
line_at (some l) tag text = record { level = l; extra_id = tag; text = text } ∷ []

abbrev pub reported : Text → LogCall
reported tag = record {
  level = LogLevel.error;
  extra_id = [];
  text = (codes "Failed to process [" ++ tag) ++ codes "] message!";
}

-- The message as it is, or a front part of it with the mark.
abbrev pub IsCleaned : Text → Text → Type 0
IsCleaned m text = (text ≡ m) ⊎ ((k : ℕ) × (k ≤ length m) × (text ≡ redact (take k m)))

-- What is logged for the message m, by what its processing comes to.
abbrev pub Logged : AwsLevel → Text → Text → Result Processed → Outcome → Type 0
Logged level tag m (throw x) o = ⊥
Logged level tag m (ok (text, true)) o =
    (o.0 ≡ line_at (level_of level) tag text) × IsCleaned m text
Logged level tag m (ok (text, false)) o =
    o.0 ≡ reported tag ∷ line_at (level_of level) tag (codes "<REDACTED>")

write_level-line_at :
    (level : AwsLevel) (tag text : Text)
    → write_level tag text (aws_log_level_to_octo level)
      ≡ (line_at (level_of level) tag text, exception_of (aws_log_level_to_octo level))
unfolding aws_log_level_to_octo
write_level-line_at AwsLevel.off tag text = refl
write_level-line_at AwsLevel.fatal tag text = refl
write_level-line_at AwsLevel.error tag text = refl
write_level-line_at AwsLevel.warn tag text = refl
write_level-line_at AwsLevel.info tag text = refl
write_level-line_at AwsLevel.debug tag text = refl
write_level-line_at AwsLevel.trace tag text = refl
write_level-line_at (AwsLevel.other n) tag text = refl

write_processed-Logged :
    (level : AwsLevel) (tag m : Text) (r : Result Processed)
    → Sanitizes m r
    → Logged level tag m r (write_processed level tag r)
      × ((write_processed level tag r).1 ≡ exception_of (aws_log_level_to_octo level))
unfolding write_processed failure
write_processed-Logged level tag m (throw x) h = absurd h
write_processed-Logged level tag m (ok (out, true)) (inl e) =
    let w = write_level-line_at level tag out in ((ap (λ o. o.0) w, inl e), ap (λ o. o.1) w)
write_processed-Logged level tag m (ok (out, true)) (inr (k, le, _, e)) =
    let w = write_level-line_at level tag out in
    ((ap (λ o. o.0) w, inr (k, le, e)), ap (λ o. o.1) w)
write_processed-Logged level tag m (ok (out, false)) h =
    let w = write_level-line_at level tag redacted_text in
    (ap (λ o. failure tag ∷ o.0) w, ap (λ o. o.1) w)

-- If the message, without the blanks at its end, can be processed, LogStream makes one log, under the tag and
-- at the level that the SDK's level stands for, of what the processing leaves, which is the message or a front
-- part of it with the mark. If it cannot, LogStream first logs an error with the tag, and then at that level
-- the bare mark. At the level Off, and at one without a name, there is no log but the error. It throws just
-- what the conversion of the level throws.
pub log_stream-Logged :
    (tags : List SanitizerTags) (level : AwsLevel) (tag s : Text)
    → Logged level tag
        (trim_white_spaces s)
        (process_tag tags tag (trim_white_spaces s))
        (log_stream tags level tag s)
      × ((log_stream tags level tag s).1 ≡ exception_of (aws_log_level_to_octo level))
unfolding log_stream
log_stream-Logged tags level tag s =
    write_processed-Logged level tag (trim_white_spaces s)
      (process_tag tags tag (trim_white_spaces s))
      (process_tag-Sanitizes tags tag (trim_white_spaces s))

-- The tags that have a processor.
abbrev pub processed_tags : List Text
processed_tags =
    codes "Aws::Config::ConfigFileProfileFSM"
    ∷ codes "AWSAuthV4Signer"
    ∷ codes "AWSClient"
    ∷ codes "AWSErrorMarshaller"
    ∷ codes "CURL"
    ∷ codes "CurlHttpClient"
    ∷ []

unknown_tag :
    (tags : List SanitizerTags) (tag m : Text)
    → holds_text tag processed_tags ≡ false
    → holds_text tag harmless_tags ≡ false
    → is_empty m ≡ false
    → process_tag tags tag m ≡ ok (m, false)
unfolding process_tag holds_text
unknown_tag tags tag m p h e = ground arith

-- Of a message with a tag that the code does not know nothing is logged, whatever sanitizers are
-- allowed: two messages that are not all blanks make the same logs.
pub log_stream_unknown_tag :
    (tags : List SanitizerTags) (level : AwsLevel) (tag s t : Text)
    → holds_text tag processed_tags ≡ false
    → holds_text tag harmless_tags ≡ false
    → is_empty (trim_white_spaces s) ≡ false
    → is_empty (trim_white_spaces t) ≡ false
    → log_stream tags level tag s ≡ log_stream tags level tag t
unfolding log_stream write_processed
log_stream_unknown_tag tags level tag s t p h e f = rw (
  unknown_tag tags tag (trim_white_spaces s) p h e,
  unknown_tag tags tag (trim_white_spaces t) p h f,
)
