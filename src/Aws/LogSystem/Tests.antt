-- ===== src/Aws/LogSystem/Tests.antt =====
-- Runs of LogStream, and the theorems at concrete texts.
use octo_logger_cpp.Prelude.{◌≡◌, refl, none, [], ◌∷◌}
use octo_logger_cpp.Prelude.Text.{codes}
use octo_logger_cpp.Level.{LogLevel}
use octo_logger_cpp.Aws.Levels.{all_tag, AwsLevel, aws_log_level_to_octo}
use octo_logger_cpp.Aws.Sanitizer.{process_tag, holds_text}
use octo_logger_cpp.Aws.LogSystem.{
  trim_white_spaces, find_last_not_of, log_stream, write_processed, failure,
}
use octo_logger_cpp.Aws.LogSystem.Passing.{Logged, exception_of, log_stream-Logged}

runs : Unit {0}
unfolding log_stream write_processed trim_white_spaces find_last_not_of process_tag holds_text
    aws_log_level_to_octo
runs =
    let unknown : log_stream (all_tag ∷ []) AwsLevel.info (codes "X") (codes "key") ≡ (
      failure (codes "X")
          ∷ record { level = LogLevel.info; extra_id = codes "X"; text = codes "<REDACTED>" }
          ∷ [],
      none,
    ) =
      refl in
    tt

log_stream-Logged_example :
    Logged AwsLevel.info
      (codes "X")
      (trim_white_spaces (codes "key"))
      (process_tag (all_tag ∷ []) (codes "X") (trim_white_spaces (codes "key")))
      (log_stream (all_tag ∷ []) AwsLevel.info (codes "X") (codes "key"))
    × ((log_stream (all_tag ∷ []) AwsLevel.info (codes "X") (codes "key")).1
        ≡ exception_of (aws_log_level_to_octo AwsLevel.info))
log_stream-Logged_example = log_stream-Logged (all_tag ∷ []) AwsLevel.info (codes "X") (codes "key")
