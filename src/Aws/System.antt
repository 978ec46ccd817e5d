-- ===== src/Aws/System.antt =====
-- src/aws/aws-log-system.cpp: the one log system of the process, its logger's level, and the calls that it
-- does not support.
mod Tests
use octo_logger_cpp.Prelude.{
  ◌≡◌, ℕ, Option, none, some, List, [], ◌∷◌, ◌++◌, ◌⊎◌, ◌∙◌, inl, inr, ap, ==_iff, refl,
}
use octo_logger_cpp.Prelude.Text.{Text, codes}
use octo_logger_cpp.Prelude.Decimal.{decimal}
use octo_logger_cpp.Prelude.Result.{Result, ok, throw, ◌>>=◌}
use octo_logger_cpp.Level.{LogLevel}
use octo_logger_cpp.Channel.{Channel, Heap, Logger, StringView, deref}
use octo_logger_cpp.Channel
use octo_logger_cpp.Manager.{Manager, create_channel}
use octo_logger_cpp.Manager.Writes.{deref-set_log_level}
use octo_logger_cpp.Logger.{logger_on}
use octo_logger_cpp.Aws.Levels.{
  SanitizerTags, all_tag, AwsLevel, octo_log_level_to_aws, aws_log_level_to_octo,
}
use octo_logger_cpp.Aws.LogSystem.{LogCall}

pub record AwsLogSystem : Type 0 where
  pub logger : Logger
  pub allowed_sanitizer_tags : List SanitizerTags

abbrev system_on : Logger × Manager → AwsLogSystem × Manager
system_on (logger, m) = (record { logger = logger; allowed_sanitizer_tags = all_tag ∷ [] }, m)

abbrev system_name : StringView
system_name = record { bytes = codes "AwsLogSystem"; after = [] }

-- AwsLogSystem(), on the manager that the logger asks for its channel
unfoldable pub new_system : Manager → AwsLogSystem × Manager
new_system m = system_on (logger_on (create_channel system_name m))

-- instance(), from what instance_ points to
unfoldable pub instance_of : Option AwsLogSystem → Manager → AwsLogSystem × Manager
instance_of none m = new_system m
instance_of (some a) m = (a, m)

unfoldable pub set_allowed_sanitizers_tags : List SanitizerTags → AwsLogSystem → AwsLogSystem
set_allowed_sanitizers_tags tags a = record a { allowed_sanitizer_tags = tags }

abbrev level_of : Option Channel → Option (Result AwsLevel)
level_of none = none
level_of (some c) = some (octo_log_level_to_aws c.channel_level)

-- GetLogLevel(); `none` is a channel that is not in memory.
unfoldable pub get_log_level : AwsLogSystem → Heap → Option (Result AwsLevel)
get_log_level a heap = level_of (deref a.logger.channel_view heap)

abbrev with_level : AwsLogSystem → Heap → Result LogLevel → Result Heap
with_level a heap (throw x) = throw x
with_level a heap (ok level) = ok (Channel.set_log_level level a.logger.channel_view heap)

-- SetLogLevel(log_level): the memory of the channels after it.
unfoldable pub set_log_level : AwsLevel → AwsLogSystem → Heap → Result Heap
set_log_level level a heap = with_level a heap (aws_log_level_to_octo level)

abbrev unsupported : Text → ℕ → Text → LogCall
unsupported name number tag = record {
  level = LogLevel.warning;
  extra_id = codes "AwsLogSystem";
  text =
      (((((codes "Unsupported method [methodAwsLogSystem::" ++ name) ++ codes "()] was called! [")
            ++ decimal number)
          ++ codes "][")
        ++ tag)
      ++ codes "]";
}

-- Log(log_level, tag, format_str, ...), and vaLog. The number is that of the level in the AWS SDK.
unfoldable pub log : ℕ → Text → LogCall
log number tag = unsupported (codes "Log") number tag

unfoldable pub va_log : ℕ → Text → LogCall
va_log number tag = unsupported (codes "vaLog") number tag

-- A level that has been set is the one that is got, but for Fatal, which becomes Error.
abbrev pub Got : AwsLevel → Option (Result AwsLevel) → Type 0
Got level got =
    (got ≡ some (ok level)) ⊎ ((level ≡ AwsLevel.fatal) × (got ≡ some (ok AwsLevel.error)))

abbrev pub GotAfter : AwsLevel → AwsLogSystem → Result Heap → Type 0
GotAfter level a (throw x) = ⊥
GotAfter level a (ok heap) = Got level (get_log_level a heap)

abbrev pub IsKnown : AwsLevel → Type 0
IsKnown (AwsLevel.other n) = ⊥
IsKnown level = Unit {0}

got_level :
    (a : AwsLogSystem) (heap : Heap) (c : Channel) (level : LogLevel)
    → deref a.logger.channel_view heap ≡ some c
    → get_log_level a (Channel.set_log_level level a.logger.channel_view heap)
      ≡ some (octo_log_level_to_aws level)
unfolding get_log_level
got_level a heap c level h =
    let p = a.logger.channel_view in
    let e : deref p (Channel.set_log_level level p heap)
        ≡ some (record c { channel_level = level }) =
      deref-set_log_level level p p heap ∙ rw ((==_iff p p).1 refl, h) refl in
    ap level_of e

-- SetLogLevel of a level of the AWS SDK does not throw, and GetLogLevel answers that level then, but Error
-- for Fatal. The logger's channel is in memory.
pub set_log_level-Got :
    (level : AwsLevel) (a : AwsLogSystem) (heap : Heap) (c : Channel)
    → IsKnown level
    → deref a.logger.channel_view heap ≡ some c
    → GotAfter level a (set_log_level level a heap)
unfolding set_log_level aws_log_level_to_octo octo_log_level_to_aws
set_log_level-Got AwsLevel.off a heap c k h = inl (got_level a heap c LogLevel.quiet h)
set_log_level-Got AwsLevel.fatal a heap c k h = inr (refl, got_level a heap c LogLevel.error h)
set_log_level-Got AwsLevel.error a heap c k h = inl (got_level a heap c LogLevel.error h)
set_log_level-Got AwsLevel.warn a heap c k h = inl (got_level a heap c LogLevel.warning h)
set_log_level-Got AwsLevel.info a heap c k h = inl (got_level a heap c LogLevel.info h)
set_log_level-Got AwsLevel.debug a heap c k h = inl (got_level a heap c LogLevel.debug h)
set_log_level-Got AwsLevel.trace a heap c k h = inl (got_level a heap c LogLevel.trace h)
set_log_level-Got (AwsLevel.other n) a heap c k h = absurd k
