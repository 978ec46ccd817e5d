-- ===== src/Aws/Sanitizer/Tests.antt =====
-- Runs of the processors, and the theorems at concrete messages.
use octo_logger_cpp.Prelude.{◌≡◌, refl, true, [], ◌∷◌, ◌++◌}
use octo_logger_cpp.Prelude.Text.{Text, codes, resize, find_first_of, Lacks}
use octo_logger_cpp.Prelude.Result.{ok}
use octo_logger_cpp.Aws.Levels.{all_tag, curl_tag}
use octo_logger_cpp.Aws.Sanitizer.{
  redact, first_prefix, process_curl_tag, process_curl_header, process_tag, allowed_sanitizer_tag,
  holds_tag, header_at_11,
}
use octo_logger_cpp.Aws.Sanitizer.Cuts.{curl_header_hidden}
use octo_logger_cpp.Aws.Sanitizer.Bounds.{Sanitizes, process_tag-Sanitizes}

abbrev cookie : Text
cookie = codes "Set-Cookie: secret"

runs : Unit {0}
unfolding process_tag allowed_sanitizer_tag holds_tag process_curl_tag process_curl_header
    first_prefix redact resize find_first_of header_at_11
runs =
    let hidden : process_tag (all_tag ∷ []) (codes "CURL") (codes "(HeaderIn) " ++ cookie)
        ≡ ok (codes "(HeaderIn) Set-Cookie: <REDACTED>", true) =
      refl in
    let listed : process_tag (curl_tag ∷ []) (codes "CURL") (codes "(HeaderIn) Host: a")
        ≡ ok (codes "(HeaderIn) Host: a", true) =
      refl in
    let off : process_tag [] (codes "CURL") (codes "(HeaderIn) " ++ cookie)
        ≡ ok (codes "(HeaderIn) " ++ cookie, true) =
      refl in
    tt

abbrev set_cookie : Text
set_cookie = codes "Set-Cookie"

set_cookie-Lacks : Lacks b':' set_cookie
set_cookie-Lacks =
    (refl, (refl, (refl, (refl, (refl, (refl, (refl, (refl, (refl, (refl, tt))))))))))

curl_header_hidden_example :
    process_curl_tag (codes "(HeaderIn) " ++ set_cookie ++ b':' ∷ codes " secret")
    ≡ ok (redact (codes "(HeaderIn) " ++ set_cookie ++ b':' ∷ []), true)
unfolding first_prefix
curl_header_hidden_example = curl_header_hidden set_cookie (codes " secret") set_cookie-Lacks refl

process_tag-Sanitizes_example : Sanitizes cookie (process_tag (all_tag ∷ []) (codes "CURL") cookie)
process_tag-Sanitizes_example = process_tag-Sanitizes (all_tag ∷ []) (codes "CURL") cookie
