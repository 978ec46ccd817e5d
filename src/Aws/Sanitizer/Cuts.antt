-- ===== src/Aws/Sanitizer/Cuts.antt =====
-- What of a message passes each processor.
use octo_logger_cpp.Prelude.{
  ◌+◌, ◌≤◌, ◌≡◌, refl, ap, subst, true, false, none, some, List, [], ◌∷◌, ◌++◌, length, drop, arith,
  Option-cases, Bool-cases, inl, inr, ◌⊎◌, length-append, append_assoc,
}
use octo_logger_cpp.Prelude.Text.{
  Text, codes, text_eq, text_eq_iff, starts_with, resize, resize-append, resize-starts_with,
  starts_with-split, find_first_of-append, find_at, Lacks,
}
use octo_logger_cpp.Prelude.Result.{ok}
use octo_logger_cpp.Aws.Sanitizer.{
  white_listed_headers, first_prefix, is_found, redact, Processed, cut_to, authv4_prefixes,
  process_auth_v4_signer_tag, profile_prefixes, process_config_file_profile_tag, header_at_11,
  process_curl_tag, process_curl_header, process_curl_http_client_tag, holds_text, http_prefixes,
}

pub first_prefix-starts_with :
    (ps : List Text) (m p : Text)
    → first_prefix ps m ≡ some p
    → (starts_with m p ≡ true) × (holds_text p ps ≡ true)
unfolding first_prefix holds_text
first_prefix-starts_with [] m p h = absurd (ground arith)
first_prefix-starts_with (q ∷ ps) m p h = elim (Bool-cases (starts_with m q)) [
  | inl hit ↦
      let e : q ≡ p = ground (arith, hit) in
      (subst (λ t. starts_with m t ≡ true) e hit, ground (arith, text_eq_iff p q))
  | inr miss ↦ let r = first_prefix-starts_with ps m p (rw miss at h) in (r.0, ground (arith, r.1))
]

-- Either the message is returned as it is with the answer false, or it is one of the listed texts with
-- the mark, and the answer is true.
abbrev pub OnlyListed : List Text → Text → Processed → Type 0
OnlyListed ps m r =
    ((r.1 ≡ false) × (r.0 ≡ m) × (first_prefix ps m ≡ none))
    ⊎ ((p : Text) × (r.1 ≡ true)
        × (holds_text p ps ≡ true)
        × (starts_with m p ≡ true)
        × (r.0 ≡ redact p))

cut_to-OnlyListed : (ps : List Text) (m : Text) → OnlyListed ps m (cut_to m (first_prefix ps m))
cut_to-OnlyListed ps m = elim (Option-cases (first_prefix ps m)) [
  | inl e ↦ rw e (inl (refl, refl, refl))
  | inr (p, e) ↦
      let f = first_prefix-starts_with ps m p e in
      rw e (inr (p, refl, f.1, f.0, ap redact (resize-starts_with m p f.0)))
]

-- Of a message of the request signer, and of one of the profile reader, only a listed text passes,
-- with the mark in place of all that follows it; or the message has none of them in front, and the
-- answer is false.
pub signer_and_profile-OnlyListed :
    (m : Text)
    → OnlyListed authv4_prefixes m (process_auth_v4_signer_tag m)
      × OnlyListed profile_prefixes m (process_config_file_profile_tag m)
unfolding process_auth_v4_signer_tag process_config_file_profile_tag
signer_and_profile-OnlyListed m =
    (cut_to-OnlyListed authv4_prefixes m, cut_to-OnlyListed profile_prefixes m)

-- The look-up at position eleven of a message that reaches there.
pub header_at_11-first_prefix :
    (hs : List Text) (m : Text)
    → 11 ≤ length m
    → header_at_11 hs m ≡ ok (is_found (first_prefix hs (drop 11 m)))
unfolding header_at_11 first_prefix
header_at_11-first_prefix [] m h = refl
header_at_11-first_prefix (p ∷ hs) m h = ground (arith, header_at_11-first_prefix hs m h)

-- A message that starts with "(HeaderIn)" and is more than that has a byte at position ten.
pub header_length :
    (m : Text)
    → text_eq m (codes "(HeaderIn)") ≡ false
    → starts_with m (codes "(HeaderIn)") ≡ true
    → 11 ≤ length m
header_length m ne s = more (drop 10 m) (starts_with-split m (codes "(HeaderIn)") s)
  where
    more : (r : Text) → m ≡ codes "(HeaderIn)" ++ r → 11 ≤ length m
    more [] e = absurd (ground (arith, ne, (text_eq_iff m (codes "(HeaderIn)")).1 e))
    more (c ∷ r) e = rw e (omega arith)

resize_colon : (s v : Text) → resize (length s + 1) (s ++ b':' ∷ v) ≡ s ++ b':' ∷ []
resize_colon s v =
    let e : length s + 1 ≡ length (s ++ b':' ∷ []) = omega (arith, length-append s (b':' ∷ [])) in
    rw (e, ← append_assoc s (b':' ∷ []) v) (resize-append (s ++ b':' ∷ []) v)

Lacks-append : (s t : Text) → Lacks b':' s → Lacks b':' t → Lacks b':' (s ++ t)
Lacks-append [] t h k = k
Lacks-append (c ∷ s) t h k = (h.0, Lacks-append s t h.1 k)

module _ (name v : Text) (lacks : Lacks b':' name) where
  -- Of a header "name: value" that CURL reports as received, and that is not among the listed harmless
  -- ones, the value is replaced by the mark, whatever it is; the name has no colon.
  pub curl_header_hidden :
      first_prefix white_listed_headers (name ++ b':' ∷ v) ≡ none
      → process_curl_tag (codes "(HeaderIn) " ++ name ++ b':' ∷ v)
        ≡ ok (redact (codes "(HeaderIn) " ++ name ++ b':' ∷ []), true)
  unfolding process_curl_tag process_curl_header first_prefix
  curl_header_hidden h =
      rw
        (
          header_at_11-first_prefix white_listed_headers (codes "(HeaderIn) " ++ name ++ b':' ∷ v)
              (omega arith),
          h,
          find_first_of-append b':' (codes "(HeaderIn) " ++ name) v (
              Lacks-append (codes "(HeaderIn) ") name
                (
                  refl,
                  (
                    refl,
                    (refl, (refl, (refl, (refl, (refl, (refl, (refl, (refl, (refl, tt))))))))),
                  ),
                )
                lacks),
        )
        (ap (λ t. ok (redact t, true)) (resize_colon (codes "(HeaderIn) " ++ name) v))

  -- The same of the HTTP client's messages, which hold no other listed text.
  pub http_header_hidden :
      first_prefix http_prefixes (name ++ b':' ∷ v) ≡ none
      → find_at (codes "bytes written to response") 0 (name ++ b':' ∷ v) ≡ none
      → first_prefix white_listed_headers (name ++ b':' ∷ v) ≡ none
      → process_curl_http_client_tag (name ++ b':' ∷ v) ≡ (redact (name ++ b':' ∷ []), true)
  unfolding process_curl_http_client_tag
  http_header_hidden a b c = rw (a, b, c, find_first_of-append b':' name v lacks, resize_colon)
