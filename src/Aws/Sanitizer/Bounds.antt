-- ===== src/Aws/Sanitizer/Bounds.antt =====
-- A processor returns the message itself, or a front part of it with the mark.
use octo_logger_cpp.Prelude.{
  ℕ, zero, suc, ◌+◌, ◌-◌, ◌≤◌, ◌<◌, ◌≡◌, refl, ap, Bool, true, false, some, List, [], ◌∷◌, length,
  drop, take, arith, Option-cases, Bool-cases, inl, inr, ◌⊎◌, length-append, append-nil,
}
use octo_logger_cpp.Prelude.Text.{
  Text, codes, text_eq, is_empty, starts_with, resize, starts_with-split, find_first_of, find_at,
}
use octo_logger_cpp.Prelude.Result.{Result, ok, throw}
use octo_logger_cpp.Aws.Levels.{
  SanitizerTags, config_file_profile_tag, authv4_tag, awsclient_tag, error_marshaller_tag, curl_tag,
  curl_http_client_tag,
}
use octo_logger_cpp.Aws.Sanitizer.{
  first_prefix, is_found, redact, Processed, cut_to, cut_line, cut_header, header_in,
  white_listed_headers, process_auth_v4_signer_tag, process_config_file_profile_tag,
  process_aws_client_tag, process_error_marshaller_tag, resize_error, resize_or, resize_header,
  if_allowed, process_curl_tag, process_curl_header, curl_data, curl_data_prefixes,
  curl_text_prefixes, process_curl_http_client_tag, client_prefixes, response_prefixes,
  http_prefixes, authv4_prefixes, profile_prefixes, is_at, process_tag, allowed_sanitizer_tag,
}
use octo_logger_cpp.Aws.Sanitizer.Cuts.{
  first_prefix-starts_with, header_at_11-first_prefix, header_length,
}

find_first_of-lt : (c : ℕ) (s : Text) (i : ℕ) → find_first_of c s ≡ some i → i < length s
unfolding find_first_of
find_first_of-lt c [] i e = cc
find_first_of-lt c (d ∷ s) i e = elim (Option-cases (find_first_of c s)) [
  | inl n ↦ ground (arith, n)
  | inr (j, f) ↦ ground (arith, f, find_first_of-lt c s j f)
]

find_at-lt : (p : Text) (pos : ℕ) (s : Text) (i : ℕ) → find_at p pos s ≡ some i → i < length s
unfolding find_at
find_at-lt p pos [] i e = cc
find_at-lt p zero (c ∷ s) i e = elim (Option-cases (find_at p zero s)) [
  | inl n ↦ ground (arith, n)
  | inr (j, f) ↦ ground (arith, f, find_at-lt p zero s j f)
]
find_at-lt p (suc pos) (c ∷ s) i e = elim (Option-cases (find_at p pos s)) [
  | inl n ↦ ground (arith, n)
  | inr (j, f) ↦ ground (arith, f, find_at-lt p pos s j f)
]

starts_with-le : (s p : Text) → starts_with s p ≡ true → length p ≤ length s
starts_with-le s p h =
    omega (arith, ap length (starts_with-split s p h), length-append p (drop (length p) s))

resize-take : (n : ℕ) (s : Text) → n ≤ length s → resize n s ≡ take n s
unfolding resize
resize-take n s h = let e : n - length s ≡ 0 = omega arith in rw (e, append-nil)

-- The answer, with the message untouched or cut to its first k bytes; untouched if the answer is no.
abbrev pub IsCut : Text → Processed → Type 0
IsCut m r = (r.0 ≡ m) ⊎ ((k : ℕ) × (k ≤ length m) × (r.1 ≡ true) × (r.0 ≡ redact (take k m)))

cut : (m : Text) (k : ℕ) → k ≤ length m → IsCut m (redact (resize k m), true)
cut m k h = inr (k, h, refl, ap redact (resize-take k m h))

first_prefix-le : (ps : List Text) (m p : Text) → first_prefix ps m ≡ some p → length p ≤ length m
first_prefix-le ps m p e = starts_with-le m p (first_prefix-starts_with ps m p e).0

cut_to-IsCut : (ps : List Text) (m : Text) → IsCut m (cut_to m (first_prefix ps m))
cut_to-IsCut ps m = elim (Option-cases (first_prefix ps m)) [
  | inl e ↦ rw e (inl refl)
  | inr (p, e) ↦ rw e (cut m (length p) (first_prefix-le ps m p e))
]

-- Cut to a position that was found, or to a length that the message has.
found_or :
    (c : ℕ) (n : ℕ) (m : Text)
    → n ≤ length m
    → IsCut m (redact (resize_or (find_first_of c m) n m), true)
found_or c n m h = elim (Option-cases (find_first_of c m)) [
  | inl e ↦ rw e (cut m n h)
  | inr (i, e) ↦ rw e (cut m i (omega (arith, find_first_of-lt c m i e)))
]

cut_line-IsCut : (ps : List Text) (m : Text) → IsCut m (cut_line m (first_prefix ps m))
cut_line-IsCut ps m = elim (Option-cases (first_prefix ps m)) [
  | inl e ↦ rw e (inl refl)
  | inr (p, e) ↦ rw e (found_or b'\n' (length p) m (first_prefix-le ps m p e))
]

client-IsCut : (m : Text) → IsCut m (process_aws_client_tag m)
unfolding process_aws_client_tag
client-IsCut m = elim (Bool-cases (is_found (first_prefix client_prefixes m))) [
  | inl a ↦ rw a (inl refl)
  | inr na ↦ rw na (cut_line-IsCut response_prefixes m)
]

cut_header-IsCut : (m : Text) → IsCut m (cut_header m (find_first_of b':' m))
cut_header-IsCut m = elim (Option-cases (find_first_of b':' m)) [
  | inl e ↦ rw e (inl refl)
  | inr (i, e) ↦ rw e (cut m (i + 1) (omega (arith, find_first_of-lt b':' m i e)))
]

http-IsCut : (m : Text) → IsCut m (process_curl_http_client_tag m)
unfolding process_curl_http_client_tag
http-IsCut m = elim (Bool-cases (is_found (first_prefix http_prefixes m))) [
  | inl a ↦ rw a (inl refl)
  | inr na ↦ elim (Bool-cases (is_at (find_at (codes "bytes written to response") 0 m))) [
    | inl b ↦ rw (na, b) (inl refl)
    | inr nb ↦ elim (Bool-cases (is_found (first_prefix white_listed_headers m))) [
      | inl c ↦ rw (na, nb, c) (inl refl)
      | inr nc ↦ rw (na, nb, nc) (cut_header-IsCut m)
    ]
  ]
]

resize_header-IsCut :
    (m : Text) → 10 ≤ length m → IsCut m (redact (resize_header (find_first_of b':' m) m), true)
resize_header-IsCut m h = elim (Option-cases (find_first_of b':' m)) [
  | inl e ↦ rw e (cut m 10 h)
  | inr (i, e) ↦ rw e (cut m (i + 1) (omega (arith, find_first_of-lt b':' m i e)))
]

resize_error-IsCut :
    (m : Text) → 22 ≤ length m → IsCut m (redact (resize_error (find_at (codes "':") 21 m) m), true)
resize_error-IsCut m h = elim (Option-cases (find_at (codes "':") 21 m)) [
  | inl e ↦ rw e (cut m 20 (omega arith))
  | inr (i, e) ↦ rw e (cut m (i + 1) (omega (arith, find_at-lt (codes "':") 21 m i e)))
]

marshaller-IsCut : (m : Text) → IsCut m (process_error_marshaller_tag m)
unfolding process_error_marshaller_tag
marshaller-IsCut m = elim (Bool-cases (starts_with m (codes "Encountered AWSError '"))) [
  | inl a ↦ rw a (resize_error-IsCut m (starts_with-le m (codes "Encountered AWSError '") a))
  | inr na ↦ elim (Bool-cases (starts_with m (codes "Error response is"))) [
    | inl b ↦ rw (na, b) (cut m 17 (starts_with-le m (codes "Error response is") b))
    | inr nb ↦ rw (na, nb) (inl refl)
  ]
]

-- A processor that does not throw, and returns such an answer.
abbrev pub Sanitizes : Text → Result Processed → Type 0
Sanitizes m (ok r) = IsCut m r
Sanitizes m (throw x) = ⊥

header_in-Sanitizes : (m : Text) (b : Bool) → 10 ≤ length m → Sanitizes m (header_in m b)
header_in-Sanitizes m true h = inl refl
header_in-Sanitizes m false h = resize_header-IsCut m h

curl_header-Sanitizes : (m : Text) → Sanitizes m (process_curl_header m)
unfolding process_curl_header
curl_header-Sanitizes m = elim (Bool-cases (text_eq m (codes "(HeaderIn)"))) [
  | inl a ↦ rw a (inl refl)
  | inr na ↦ elim (Bool-cases (starts_with m (codes "(HeaderIn)"))) [
    | inl b ↦
        let long = header_length m na b in
        rw (na, b, header_at_11-first_prefix white_listed_headers m long)
          (header_in-Sanitizes m (is_found (first_prefix white_listed_headers (drop 11 m)))
            (omega arith))
    | inr nb ↦ elim (Bool-cases (starts_with m (codes "(HeaderOut)"))) [
      | inl c ↦ rw (na, nb, c) (found_or b'\n' 11 m (starts_with-le m (codes "(HeaderOut)") c))
      | inr nc ↦ rw (na, nb, nc) (inl refl)
    ]
  ]
]

curl-Sanitizes : (m : Text) → Sanitizes m (process_curl_tag m)
unfolding process_curl_tag
curl-Sanitizes m = elim (Option-cases (first_prefix curl_data_prefixes m)) [
  | inr (p, e) ↦ rw (e, curl_data) (cut m (length p) (first_prefix-le curl_data_prefixes m p e))
  | inl e ↦ elim (Bool-cases (is_found (first_prefix curl_text_prefixes m))) [
    | inl a ↦ rw (e, curl_data, a) (inl refl)
    | inr na ↦ rw (e, curl_data, na) (curl_header-Sanitizes m)
  ]
]

allowed-Sanitizes :
    (b : Bool) (m : Text) (r : Result Processed) → Sanitizes m r → Sanitizes m (if_allowed b m r)
allowed-Sanitizes false m r h = inl refl
allowed-Sanitizes true m r h = h

-- For every tag and whatever sanitizers are allowed, process_tag does not throw, and it leaves the
-- message as it was, or with the answer true as its first k bytes, for some k within the message,
-- followed by the mark.
pub process_tag-Sanitizes :
    (tags : List SanitizerTags) (tag m : Text) → Sanitizes m (process_tag tags tag m)
unfolding process_tag
process_tag-Sanitizes tags tag m = elim (Bool-cases (is_empty m)) [
  | inl e ↦ rw e (inl refl)
  | inr ne ↦ elim (Bool-cases (text_eq tag (codes "Aws::Config::ConfigFileProfileFSM"))) [
    | inl y ↦
        rw (ne, y)
          (allowed-Sanitizes (allowed_sanitizer_tag tags config_file_profile_tag) m
            (ok (process_config_file_profile_tag m))
            (unfold process_config_file_profile_tag in cut_to-IsCut profile_prefixes m))
    | inr n0 ↦ elim (Bool-cases (text_eq tag (codes "AWSAuthV4Signer"))) [
      | inl y ↦
          rw (ne, n0, y)
            (allowed-Sanitizes (allowed_sanitizer_tag tags authv4_tag) m
              (ok (process_auth_v4_signer_tag m))
              (unfold process_auth_v4_signer_tag in cut_to-IsCut authv4_prefixes m))
      | inr n1 ↦ elim (Bool-cases (text_eq tag (codes "AWSClient"))) [
        | inl y ↦
            rw (ne, n0, n1, y)
              (allowed-Sanitizes (allowed_sanitizer_tag tags awsclient_tag) m
                (ok (process_aws_client_tag m)) (client-IsCut m))
        | inr n2 ↦ elim (Bool-cases (text_eq tag (codes "AWSErrorMarshaller"))) [
          | inl y ↦
              rw (ne, n0, n1, n2, y)
                (allowed-Sanitizes (allowed_sanitizer_tag tags error_marshaller_tag) m
                  (ok (process_error_marshaller_tag m)) (marshaller-IsCut m))
          | inr n3 ↦ elim (Bool-cases (text_eq tag (codes "CURL"))) [
            | inl y ↦
                rw (ne, n0, n1, n2, n3, y)
                  (allowed-Sanitizes (allowed_sanitizer_tag tags curl_tag) m (process_curl_tag m)
                    (curl-Sanitizes m))
            | inr n4 ↦ elim (Bool-cases (text_eq tag (codes "CurlHttpClient"))) [
              | inl y ↦
                  rw (ne, n0, n1, n2, n3, n4, y)
                    (allowed-Sanitizes (allowed_sanitizer_tag tags curl_http_client_tag) m
                      (ok (process_curl_http_client_tag m)) (http-IsCut m))
              | inr n5 ↦ rw (ne, n0, n1, n2, n3, n4, n5) (inl refl)
            ]
          ]
        ]
      ]
    ]
  ]
]
