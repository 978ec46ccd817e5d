-- ===== src/Aws/Sanitizer.antt =====
-- src/aws/aws-log-system.cpp: what is taken out of a message of the AWS SDK, by the tag it comes
-- with. A processor returns the message as it leaves it, and whether it knew what to do with it.
pub mod Cuts
pub mod Bounds
mod Tests
use octo_logger_cpp.Prelude.{
  ℕ, suc, ◌+◌, Bool, true, false, not, ◌&&◌, ◌||◌, Option, none, some, List, [], ◌∷◌, ◌++◌, length,
  drop, if◌then◌else◌, ◌==◌, ltb,
}
use octo_logger_cpp.Prelude.Text.{
  Text, codes, text_eq, is_empty, starts_with, resize, find_first_of, find_at,
}
use octo_logger_cpp.Prelude.Result.{Result, ok, throw, out_of_range, ◌>>=◌}
use octo_logger_cpp.Aws.Levels.{
  SanitizerTags, all_tag, authv4_tag, awsclient_tag, config_file_profile_tag, curl_http_client_tag,
  curl_tag, error_marshaller_tag, tag_index,
}

abbrev pub redacted_text : Text
redacted_text = codes "<REDACTED>"

abbrev pub white_listed_headers : List Text
white_listed_headers =
    codes "Accept:"
    ∷ codes "accept:"
    ∷ codes "content-length:"
    ∷ codes "Content-Length:"
    ∷ codes "content-type:"
    ∷ codes "Content-Type:"
    ∷ codes "date:"
    ∷ codes "Date:"
    ∷ codes "Expect:"
    ∷ codes "expect:"
    ∷ codes "Host:"
    ∷ codes "host:"
    ∷ codes "HTTP/"
    ∷ codes "user-agent:"
    ∷ codes "User-Agent:"
    ∷ codes "x-amz-api-version:"
    ∷ codes "x-amz-date:"
    ∷ []

-- A loop over texts that stops at the first one that the message starts with.
unfoldable pub first_prefix : List Text → Text → Option Text
first_prefix [] message = none
first_prefix (p ∷ ps) message = if starts_with message p then some p else first_prefix ps message

abbrev pub is_found : Option Text → Bool
is_found none = false
is_found (some p) = true

-- append(" "); append(REDACTED_TEXT)
unfoldable pub redact : Text → Text
redact message = (message ++ codes " ") ++ redacted_text

abbrev pub Processed : Type 0
Processed = Text × Bool

-- resize(strlen(itr)), and the appended text.
abbrev pub cut_to : Text → Option Text → Processed
cut_to message none = (message, false)
cut_to message (some p) = (redact (resize (length p) message), true)

abbrev pub authv4_prefixes : List Text
authv4_prefixes =
    codes "Calculated sha256"
    ∷ codes "Canonical Header String:"
    ∷ codes "Canonical Request String:"
    ∷ codes "Final computed signing hash:"
    ∷ codes "Final String to sign:"
    ∷ codes "Signed Headers value:"
    ∷ codes "Signing request with:"
    ∷ []

unfoldable pub process_auth_v4_signer_tag : Text → Processed
process_auth_v4_signer_tag message = cut_to message (first_prefix authv4_prefixes message)

abbrev pub client_prefixes : List Text
client_prefixes =
    codes "Found body, but content-length has not been set"
    ∷ codes "If the signature check failed."
    ∷ codes "Request returned error."
    ∷ codes "Request Successfully signed"
    ∷ codes "Server time is"
    ∷ []

abbrev pub response_prefixes : List Text
response_prefixes = codes "HTTP response code:" ∷ []

-- resize to the position found, or to `n` bytes if there is none
abbrev pub resize_or : Option ℕ → ℕ → Text → Text
resize_or none n message = resize n message
resize_or (some i) n message = resize i message

abbrev pub cut_line : Text → Option Text → Processed
cut_line message none = (message, false)
cut_line message (some p) =
    (redact (resize_or (find_first_of b'\n' message) (length p) message), true)

unfoldable pub process_aws_client_tag : Text → Processed
process_aws_client_tag message =
    if is_found (first_prefix client_prefixes message)
    then (message, true)
    else cut_line message (first_prefix response_prefixes message)

abbrev pub profile_prefixes : List Text
profile_prefixes = codes "found access key" ∷ codes "found profile" ∷ codes "found region" ∷ []

unfoldable pub process_config_file_profile_tag : Text → Processed
process_config_file_profile_tag message = cut_to message (first_prefix profile_prefixes message)

abbrev pub http_prefixes : List Text
http_prefixes =
    codes "Including headers:"
    ∷ codes "Initializing Curl library with version:"
    ∷ codes "Making request to"
    ∷ codes "Obtained connection handle"
    ∷ codes "Releasing curl handle"
    ∷ codes "Response body length:"
    ∷ codes "Response content-length header:"
    ∷ codes "Returned content type"
    ∷ codes "Returned http response code"
    ∷ []

abbrev pub is_at : Option ℕ → Bool
is_at none = false
is_at (some i) = true

-- The header's name stays, up to and with the colon; with no colon nothing is done.
abbrev pub cut_header : Text → Option ℕ → Processed
cut_header message none = (message, false)
cut_header message (some i) = (redact (resize (i + 1) message), true)

unfoldable pub process_curl_http_client_tag : Text → Processed
process_curl_http_client_tag message =
    if is_found (first_prefix http_prefixes message)
    then (message, true)
    else if is_at (find_at (codes "bytes written to response") 0 message)
    then (message, true)
    else if is_found (first_prefix white_listed_headers message)
    then (message, true)
    else cut_header message (find_first_of b':' message)

-- message.compare(11, strlen(itr), itr) == 0 for some listed header; compare throws
-- std::out_of_range if the message has fewer than eleven bytes.
unfoldable pub header_at_11 : List Text → Text → Result Bool
header_at_11 [] message = ok false
header_at_11 (h ∷ hs) message =
    if ltb (length message) 11
    then throw out_of_range
    else if starts_with (drop 11 message) h
    then ok true
    else header_at_11 hs message

abbrev pub resize_header : Option ℕ → Text → Text
resize_header none message = resize 10 message
resize_header (some i) message = resize (i + 1) message

abbrev pub header_in : Text → Bool → Result Processed
header_in message true = ok (message, true)
header_in message false = ok (redact (resize_header (find_first_of b':' message) message), true)

-- From `else if (message == "(HeaderIn)")` on.
unfoldable pub process_curl_header : Text → Result Processed
process_curl_header message =
    if text_eq message (codes "(HeaderIn)")
    then ok (message, true)
    else if starts_with message (codes "(HeaderIn)")
    then (header_at_11 white_listed_headers message >>= header_in message)
    else if starts_with message (codes "(HeaderOut)")
    then ok (redact (resize_or (find_first_of b'\n' message) 11 message), true)
    else ok (message, false)

abbrev pub curl_data_prefixes : List Text
curl_data_prefixes = codes "(DataIn)" ∷ codes "(DataOut)" ∷ []

abbrev pub curl_text_prefixes : List Text
curl_text_prefixes = codes "(SSLDataIn)" ∷ codes "(SSLDataOut)" ∷ codes "(Text)" ∷ []

-- After the first loop: what it found, if anything.
abbrev pub curl_data : Text → Option Text → Result Processed
curl_data message (some p) = ok (redact (resize (length p) message), true)
curl_data message none =
    if is_found (first_prefix curl_text_prefixes message)
    then ok (message, true)
    else process_curl_header message

unfoldable pub process_curl_tag : Text → Result Processed
process_curl_tag message = curl_data message (first_prefix curl_data_prefixes message)

abbrev pub resize_error : Option ℕ → Text → Text
resize_error none message = resize 20 message
resize_error (some i) message = resize (i + 1) message

unfoldable pub process_error_marshaller_tag : Text → Processed
process_error_marshaller_tag message =
    if starts_with message (codes "Encountered AWSError '")
    then (redact (resize_error (find_at (codes "':") 21 message) message), true)
    else if starts_with message (codes "Error response is")
    then (redact (resize 17 message), true)
    else (message, false)

unfoldable pub holds_tag : SanitizerTags → List SanitizerTags → Bool
holds_tag t [] = false
holds_tag t (u ∷ us) = if tag_index u == tag_index t then true else holds_tag t us

-- A sanitizer is in force if its tag, or ALL_TAG, is among the allowed ones.
unfoldable pub allowed_sanitizer_tag : List SanitizerTags → SanitizerTags → Bool
unfolding holds_tag
allowed_sanitizer_tag tags tag = holds_tag all_tag tags || holds_tag tag tags

-- A sanitizer that is not in force lets the message pass as it is.
abbrev pub if_allowed : Bool → Text → Result Processed → Result Processed
if_allowed false message r = ok (message, true)
if_allowed true message r = r

abbrev pub harmless_tags : List Text
harmless_tags =
    codes "Aws::Config::AWSConfigFileProfileConfigLoader"
    ∷ codes "Aws::Config::AWSProfileConfigLoader"
    ∷ codes "Aws_Init_Cleanup"
    ∷ codes "ClientConfiguration"
    ∷ codes "CurlHandleContainer"
    ∷ codes "DefaultAWSCredentialsProviderChain"
    ∷ codes "EC2MetadataClient"
    ∷ codes "InstanceProfileCredentialsProvider"
    ∷ codes "FileSystemUtils"
    ∷ codes "ProfileConfigFileAWSCredentialsProvider"
    ∷ codes "STSAssumeRoleWithWebIdentityCredentialsProvider"
    ∷ []

unfoldable pub holds_text : Text → List Text → Bool
holds_text s [] = false
holds_text s (t ∷ ts) = text_eq s t || holds_text s ts

unfoldable pub process_tag : List SanitizerTags → Text → Text → Result Processed
process_tag tags tag message =
    let allowed = allowed_sanitizer_tag tags in
    if is_empty message
    then ok (message, true)
    else if text_eq tag (codes "Aws::Config::ConfigFileProfileFSM")
    then if_allowed (allowed config_file_profile_tag) message
        (ok (process_config_file_profile_tag message))
    else if text_eq tag (codes "AWSAuthV4Signer")
    then if_allowed (allowed authv4_tag) message (ok (process_auth_v4_signer_tag message))
    else if text_eq tag (codes "AWSClient")
    then if_allowed (allowed awsclient_tag) message (ok (process_aws_client_tag message))
    else if text_eq tag (codes "AWSErrorMarshaller")
    then if_allowed (allowed error_marshaller_tag) message
        (ok (process_error_marshaller_tag message))
    else if text_eq tag (codes "CURL")
    then if_allowed (allowed curl_tag) message (process_curl_tag message)
    else if text_eq tag (codes "CurlHttpClient")
    then if_allowed (allowed curl_http_client_tag) message
        (ok (process_curl_http_client_tag message))
    else ok (message, holds_text tag harmless_tags)
