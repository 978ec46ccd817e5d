-- ===== src/Aws/Levels.antt =====
-- src/aws/aws-log-system.cpp: sanitizer tags and the two scales of levels.
use octo_logger_cpp.Prelude.{ℕ, ◌≡◌, refl, ◌↔◌, ◌⊎◌, if◌then◌else◌, arith}
use octo_logger_cpp.Prelude.Text.{Text, codes, text_eq, text_eq_iff}
use octo_logger_cpp.Prelude.Result.{Result, ok, throw, runtime_error, ◌>>=◌}
use octo_logger_cpp.Level.{LogLevel}

pub data SanitizerTags : Type 0 where
  all_tag authv4_tag awsclient_tag config_file_profile_tag : SanitizerTags
  curl_http_client_tag curl_tag error_marshaller_tag : SanitizerTags

abbrev pub tag_index : SanitizerTags → ℕ
tag_index all_tag = 0
tag_index authv4_tag = 1
tag_index awsclient_tag = 2
tag_index config_file_profile_tag = 3
tag_index curl_http_client_tag = 4
tag_index curl_tag = 5
tag_index error_marshaller_tag = 6

unfoldable pub sanitizer_tag_to_string : SanitizerTags → Text
sanitizer_tag_to_string all_tag = codes "ALL"
sanitizer_tag_to_string authv4_tag = codes "AUTHV4"
sanitizer_tag_to_string awsclient_tag = codes "AWSCLIENT"
sanitizer_tag_to_string config_file_profile_tag = codes "CONFIG_FILE_PROFILE"
sanitizer_tag_to_string curl_http_client_tag = codes "CURL_HTTP_CLIENT"
sanitizer_tag_to_string curl_tag = codes "CURL"
sanitizer_tag_to_string error_marshaller_tag = codes "ERROR_MARSHALLER"

unfoldable pub string_to_sanitizer_tag : Text → Result SanitizerTags
string_to_sanitizer_tag s =
    if text_eq s (codes "ALL")
    then ok all_tag
    else if text_eq s (codes "AUTHV4")
    then ok authv4_tag
    else if text_eq s (codes "AWSCLIENT")
    then ok awsclient_tag
    else if text_eq s (codes "CONFIG_FILE_PROFILE")
    then ok config_file_profile_tag
    else if text_eq s (codes "CURL_HTTP_CLIENT")
    then ok curl_http_client_tag
    else if text_eq s (codes "CURL")
    then ok curl_tag
    else if text_eq s (codes "ERROR_MARSHALLER")
    then ok error_marshaller_tag
    else throw (runtime_error (codes "Invalid tag string"))

-- Aws::Utils::Logging::LogLevel, with the enumerators that the code names, and `other` for a value
-- that has none of them.
pub data AwsLevel : Type 0 where
  off fatal error warn info debug trace : AwsLevel
  other : ℕ → AwsLevel

unfoldable pub octo_log_level_to_aws : LogLevel → Result AwsLevel
octo_log_level_to_aws LogLevel.trace = ok AwsLevel.trace
octo_log_level_to_aws LogLevel.debug = ok AwsLevel.debug
octo_log_level_to_aws LogLevel.info = ok AwsLevel.info
octo_log_level_to_aws LogLevel.notice = ok AwsLevel.info
octo_log_level_to_aws LogLevel.warning = ok AwsLevel.warn
octo_log_level_to_aws LogLevel.error = ok AwsLevel.error
octo_log_level_to_aws LogLevel.quiet = ok AwsLevel.off
octo_log_level_to_aws (LogLevel.unnamed n) = throw (runtime_error (codes "Invalid log level"))

unfoldable pub aws_log_level_to_octo : AwsLevel → Result LogLevel
aws_log_level_to_octo AwsLevel.off = ok LogLevel.quiet
aws_log_level_to_octo AwsLevel.fatal = ok LogLevel.error
aws_log_level_to_octo AwsLevel.error = ok LogLevel.error
aws_log_level_to_octo AwsLevel.warn = ok LogLevel.warning
aws_log_level_to_octo AwsLevel.info = ok LogLevel.info
aws_log_level_to_octo AwsLevel.debug = ok LogLevel.debug
aws_log_level_to_octo AwsLevel.trace = ok LogLevel.trace
aws_log_level_to_octo (AwsLevel.other n) = throw (runtime_error (codes "Invalid AWS log level"))

tag_text :
    (s : Text) (t : SanitizerTags)
    → string_to_sanitizer_tag s ≡ ok t
    → s ≡ sanitizer_tag_to_string t
unfolding string_to_sanitizer_tag sanitizer_tag_to_string
tag_text s t h = ground (
  arith,
  text_eq_iff s (codes "ALL"),
  text_eq_iff s (codes "AUTHV4"),
  text_eq_iff s (codes "AWSCLIENT"),
  text_eq_iff s (codes "CONFIG_FILE_PROFILE"),
  text_eq_iff s (codes "CURL_HTTP_CLIENT"),
  text_eq_iff s (codes "CURL"),
  text_eq_iff s (codes "ERROR_MARSHALLER"),
)

tag_of_text : (t : SanitizerTags) → string_to_sanitizer_tag (sanitizer_tag_to_string t) ≡ ok t
unfolding string_to_sanitizer_tag sanitizer_tag_to_string
tag_of_text all_tag = refl
tag_of_text _ = refl

-- The text of a sanitizer tag is read as that tag, and no other text is read as it.
pub string_to_sanitizer_tag_iff :
    (s : Text) (t : SanitizerTags)
    → (string_to_sanitizer_tag s ≡ ok t) ↔ (s ≡ sanitizer_tag_to_string t)
string_to_sanitizer_tag_iff s t = (tag_text s t, λ e. rw e (tag_of_text t))

-- A level of this library turned into one of AWS and back is the same level, but for NOTICE, which
-- becomes INFO.
pub aws_log_level_to_octo-octo_log_level_to_aws :
    (l m : LogLevel)
    → (octo_log_level_to_aws l >>= aws_log_level_to_octo) ≡ ok m
    → (m ≡ l) ⊎ ((l ≡ LogLevel.notice) × (m ≡ LogLevel.info))
unfolding octo_log_level_to_aws aws_log_level_to_octo
aws_log_level_to_octo-octo_log_level_to_aws l m h = ground arith

-- A level of AWS turned into one of this library and back is the same level, but for Fatal, which
-- becomes Error.
pub octo_log_level_to_aws-aws_log_level_to_octo :
    (a b : AwsLevel)
    → (aws_log_level_to_octo a >>= octo_log_level_to_aws) ≡ ok b
    → (b ≡ a) ⊎ ((a ≡ AwsLevel.fatal) × (b ≡ AwsLevel.error))
unfolding octo_log_level_to_aws aws_log_level_to_octo
octo_log_level_to_aws-aws_log_level_to_octo a b h = ground arith
