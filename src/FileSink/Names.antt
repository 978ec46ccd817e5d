-- ===== src/FileSink/Names.antt =====
-- src/sinks/file-sink.cpp: the names of a channel's files, and the index that a listing of them gives.
use octo_logger_cpp.Prelude.{
  ◌≡◌, ◌≢◌, ◌≤◌, ◌<◌, ◌+◌, ◌-◌, ℕ, zero, suc, refl, sym, ap, ◌∙◌, inl, inr, true, Option, none,
  some, List, [], ◌∷◌, ◌++◌, All, length, drop, length-append, drop-append, take-append,
  append_assoc, Bool-cases, leb, ltb, if◌then◌else◌, arith,
}
use octo_logger_cpp.Prelude.Text.{Text, codes, starts_with, starts_with-append, find_at}
use octo_logger_cpp.Prelude.Int.{ℤ, pos, negsuc}
use octo_logger_cpp.Prelude.Map.{has}
use octo_logger_cpp.Prelude.Decimal.{
  decimal, read_digits, read_digits-decimal, int_max, HoldsInt, stoi, stoi-HoldsInt, stoi-decimal,
}
use octo_logger_cpp.FileSink.{file_name, scan, scan_entry, first_index, between, note_index, larger}

-- What stands between the channel's name and ".log".
between-append : (base mid : Text) → between (length base) (base ++ (mid ++ codes ".log")) ≡ mid
between-append base mid =
    let e : length (base ++ (mid ++ codes ".log")) ≡ length base + (length mid + 4) =
      rw (length-append base (mid ++ codes ".log"), length-append mid (codes ".log")) in
    let l : length base + (length mid + 4) - length base - 4 ≡ length mid = omega arith in
    let t : leb (length base + 4) (length base + (length mid + 4)) ≡ true = ground arith in
    rw (e, l, t, drop-append base (mid ++ codes ".log"), take-append mid (codes ".log"))

find_at-starts : (p s : Text) → starts_with s p ≡ true → s ≢ [] → find_at p 0 s ≡ some 0
unfolding find_at
find_at-starts p [] h n = absurd (n refl)
find_at-starts p (c ∷ s) h n = rw h

append-nil_right : (s t : Text) → (s ++ t) ≡ [] → t ≡ []
append-nil_right [] t q = q
append-nil_right (c ∷ s) t q = cc

codes-ne : codes ".log" ≢ []
codes-ne q = cc

-- A file of the channel that is listed.
scan_entry-own :
    (base mid : Text) (last : ℕ)
    → scan_entry base last (base ++ (mid ++ codes ".log")) ≡ note_index mid last
unfolding scan_entry
scan_entry-own base mid last = rw (
  find_at-starts base (base ++ (mid ++ codes ".log"))
      (starts_with-append base (mid ++ codes ".log"))
      (λ q. absurd (codes-ne (append-nil_right mid (codes ".log") (append-nil_right base _ q)))),
  between-append base mid,
)

file_name-suc :
    (base : Text) (k : ℕ)
    → file_name base (suc k) ≡ base ++ ((codes "." ++ decimal (suc k)) ++ codes ".log")
unfolding file_name
file_name-suc base k =
    let e : file_name base (suc k) ≡ ((base ++ codes ".") ++ decimal (suc k)) ++ codes ".log" =
      ground arith in
    rw (
      e,
      append_assoc (base ++ codes ".") (decimal (suc k)) (codes ".log"),
      append_assoc base (codes ".") (decimal (suc k) ++ codes ".log"),
    )

scan_entry-indexed :
    (base : Text) (last k : ℕ)
    → k < int_max
    → scan_entry base last (file_name base (suc k)) ≡ (if ltb last (suc k) then suc k else last)
scan_entry-indexed base last k h = rw (
  file_name-suc base k,
  scan_entry-own base (codes "." ++ decimal (suc k)) last,
  stoi-decimal (suc k) (omega arith),
)

scan_entry-plain : (base : Text) (last : ℕ) → scan_entry base last (file_name base 0) ≡ 1
unfolding file_name
scan_entry-plain base last = scan_entry-own base [] last

-- What a scan of names gives never goes down, but for a file without an index.
larger-le : (last : ℕ) (z : Option ℤ) → last ≤ larger last z
larger-le last none = omega arith
larger-le last (some (pos n)) = ground arith
larger-le last (some (negsuc n)) = omega arith

larger-bound : (last : ℕ) (z : Option ℤ) → last ≤ int_max → HoldsInt z → larger last z ≤ int_max
larger-bound last none h k = h
larger-bound last (some (pos n)) h k = ground arith
larger-bound last (some (negsuc n)) h k = h

note_index-le : (mid : Text) (last : ℕ) → mid ≢ [] → last ≤ note_index mid last
note_index-le [] last h = absurd (h refl)
note_index-le (c ∷ mid) last h = larger-le last (stoi mid)

note_index-bound : (mid : Text) (last : ℕ) → last ≤ int_max → note_index mid last ≤ int_max
note_index-bound [] last h = omega arith
note_index-bound (c ∷ mid) last h = larger-bound last (stoi mid) h (stoi-HoldsInt mid)

-- An entry of the channel has an index. Other entries do not count.
abbrev pub HasIndex : Text → Text → Type 0
HasIndex base name = has (find_at base 0 name) ≡ true → between (length base) name ≢ []

scan_entry-le :
    (base name : Text) (last : ℕ) → HasIndex base name → last ≤ scan_entry base last name
unfolding scan_entry
scan_entry-le base name last h = elim (Bool-cases (has (find_at base 0 name))) [
  | inl q ↦ rw q (note_index-le (between (length base) name) last (h q))
  | inr q ↦ rw q (omega arith)
]

scan_entry-bound :
    (base name : Text) (last : ℕ) → last ≤ int_max → scan_entry base last name ≤ int_max
unfolding scan_entry
scan_entry-bound base name last h =
    ground (arith, note_index-bound (between (length base) name) last h)

scan-bound :
    (base : Text) (last : ℕ) (names : List Text) → last ≤ int_max → scan base last names ≤ int_max
unfolding scan
scan-bound base last [] h = h
scan-bound base last (name ∷ names) h =
    scan-bound base (scan_entry base last name) names (scan_entry-bound base name last h)

scan-le :
    (base : Text) (last : ℕ) (names : List Text)
    → All (HasIndex base) names
    → last ≤ scan base last names
unfolding scan
scan-le base last [] h = omega arith
scan-le base last (name ∷ names) h =
    let one = scan_entry-le base name last h.0 in
    let more = scan-le base (scan_entry base last name) names h.1 in omega arith

scan-indexed :
    (base : Text) (last k : ℕ) (before after : List Text)
    → k < int_max
    → All (HasIndex base) after
    → suc k ≤ scan base last (before ++ file_name base (suc k) ∷ after)
unfolding scan
scan-indexed base last k [] after h a =
    let one = scan_entry-indexed base last k h in
    let more = scan-le base (scan_entry base last (file_name base (suc k))) after a in ground arith
scan-indexed base last k (name ∷ before) after h a =
    scan-indexed base (scan_entry base last name) k before after h a

scan-plain_last :
    (base : Text) (last : ℕ) (names : List Text)
    → scan base last (names ++ file_name base 0 ∷ []) ≡ 1
unfolding scan
scan-plain_last base last [] = scan_entry-plain base last
scan-plain_last base last (name ∷ names) = scan-plain_last base (scan_entry base last name) names

-- The next index is above that of every file listed, if no file without an index is listed after it.
pub first_index-above :
    (base : Text) (k : ℕ) (before after : List Text)
    → k < int_max
    → All (HasIndex base) after
    → suc k < first_index base (some (before ++ file_name base (suc k) ∷ after))
first_index-above base k before after h a =
    let above = scan-indexed base 0 k before after h a in
    let bound = scan-bound base 0 (before ++ file_name base (suc k) ∷ after) (omega arith) in
    ground arith

-- If the channel's file without an index is listed last, the next index is 2, whatever else is listed.
pub first_index_reset :
    (base : Text) (names : List Text) → first_index base (some (names ++ file_name base 0 ∷ [])) ≡ 2
first_index_reset base names = rw (scan-plain_last base 0 names)

between-file_name :
    (base : Text) (k : ℕ)
    → between (length base) (file_name base (suc k)) ≡ codes "." ++ decimal (suc k)
between-file_name base k =
    rw (file_name-suc base k, between-append base (codes "." ++ decimal (suc k)))

between-plain : (base : Text) → between (length base) (file_name base 0) ≡ []
unfolding file_name
between-plain base = between-append base []

-- The files of a channel have different names if their indices differ.
pub file_name_injective : (base : Text) (i j : ℕ) → file_name base i ≡ file_name base j → i ≡ j
file_name_injective base zero zero q = refl
file_name_injective base zero (suc j) q =
    let e : [] ≡ codes "." ++ decimal (suc j) =
      sym (between-plain base) ∙ ap (between (length base)) q ∙ between-file_name base j in
    cc
file_name_injective base (suc i) zero q =
    let e : codes "." ++ decimal (suc i) ≡ [] =
      sym (between-file_name base i) ∙ ap (between (length base)) q ∙ between-plain base in
    cc
file_name_injective base (suc i) (suc j) q =
    let e : codes "." ++ decimal (suc i) ≡ codes "." ++ decimal (suc j) =
      sym (between-file_name base i) ∙ ap (between (length base)) q ∙ between-file_name base j in
    sym (read_digits-decimal (suc i))
    ∙ ap (λ s. read_digits (drop 1 s) 0) e
    ∙ read_digits-decimal (suc j)
