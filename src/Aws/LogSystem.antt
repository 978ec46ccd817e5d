-- ===== src/Aws/LogSystem.antt =====
-- src/aws/aws-log-system.cpp: LogStream, from the text that the SDK streams to the logs that are made.
pub mod Passing
mod Tests
use octo_logger_cpp.Prelude.{
  ℕ, suc, Bool, true, false, ◌||◌, ◌&&◌, Option, none, some, List, [], ◌∷◌, ◌++◌, take,
  if◌then◌else◌, ◌==◌, ◌+◌,
}
use octo_logger_cpp.Prelude.Text.{Text, codes}
use octo_logger_cpp.Prelude.Result.{Result, ok, throw, Exception}
use octo_logger_cpp.Level.{LogLevel}
use octo_logger_cpp.Aws.Levels.{SanitizerTags, AwsLevel, aws_log_level_to_octo}
use octo_logger_cpp.Aws.Sanitizer.{Processed, redacted_text, process_tag}

abbrev pub is_blank : ℕ → Bool
is_blank c = c == b' ' || (c == b'\n' || c == b'\t')

-- find_last_not_of(" \n\t")
unfoldable pub find_last_not_of : Text → Option ℕ
find_last_not_of [] = none
find_last_not_of (c ∷ s) = elim (find_last_not_of s) [
  | some i ↦ some (suc i)
  | none ↦ if is_blank c then none else some 0
]

abbrev pub up_to : Text → Option ℕ → Text
up_to s none = []
up_to s (some i) = take (i + 1) s

unfoldable pub trim_white_spaces : Text → Text
trim_white_spaces s = up_to s (find_last_not_of s)

-- A log made by logger_.trace(tag) << message, and so on.
pub record LogCall : Type 0 where
  pub level : LogLevel
  pub extra_id : Text
  pub text : Text

-- The logs made, in order, and the exception that ends the call, if one does.
abbrev pub Outcome : Type 0
Outcome = List LogCall × Option Exception

-- The switch over the level.
abbrev pub write_level : Text → Text → Result LogLevel → Outcome
write_level tag message (throw x) = ([], some x)
write_level tag message (ok LogLevel.quiet) = ([], none)
write_level tag message (ok (LogLevel.unnamed n)) = ([], none)
write_level tag message (ok l) = (record { level = l; extra_id = tag; text = message } ∷ [], none)

pub failure : Text → LogCall
failure tag = record {
  level = LogLevel.error;
  extra_id = [];
  text = (codes "Failed to process [" ++ tag) ++ codes "] message!";
}

abbrev pub then_outcome : LogCall → Outcome → Outcome
then_outcome c o = (c ∷ o.0, o.1)

unfoldable pub write_processed : AwsLevel → Text → Result Processed → Outcome
write_processed level tag (throw x) = ([], some x)
write_processed level tag (ok (message, true)) =
    write_level tag message (aws_log_level_to_octo level)
write_processed level tag (ok (message, false)) =
    then_outcome (failure tag) (write_level tag redacted_text (aws_log_level_to_octo level))

unfoldable pub log_stream : List SanitizerTags → AwsLevel → Text → Text → Outcome
log_stream tags level tag message_stream =
    write_processed level tag (process_tag tags tag (trim_white_spaces message_stream))
