-- ===== src/Aws/System/Tests.antt =====
-- Levels of the AWS log system at a concrete channel.
use octo_logger_cpp.Prelude.{◌≡◌, refl, Option, none, some, List, [], ◌∷◌}
use octo_logger_cpp.Prelude.Text.{codes}
use octo_logger_cpp.Level.{LogLevel}
use octo_logger_cpp.Channel.{Heap}
use octo_logger_cpp.Aws.Levels.{all_tag, AwsLevel}
use octo_logger_cpp.Aws.System.{AwsLogSystem, set_log_level, GotAfter, set_log_level-Got, log}

abbrev heap : Heap
heap = record { channel_name = codes "AwsLogSystem"; channel_level = LogLevel.info } ∷ []

abbrev aws : AwsLogSystem
aws = record {
  logger = record { context_info = []; channel_view = 0 };
  allowed_sanitizer_tags = all_tag ∷ [];
}

runs :
    (log 4 (codes "T")).text
    ≡ codes "Unsupported method [methodAwsLogSystem::Log()] was called! [4][T]"
unfolding log octo_logger_cpp.Prelude.Decimal.decimal octo_logger_cpp.Prelude.Decimal.digits_before
runs = refl

set_log_level-Got_example : GotAfter AwsLevel.fatal aws (set_log_level AwsLevel.fatal aws heap)
set_log_level-Got_example =
    set_log_level-Got AwsLevel.fatal aws heap
      (record { channel_name = codes "AwsLogSystem"; channel_level = LogLevel.info }) tt refl
