-- ===== src/Prelude/Text.antt =====
-- Byte strings. A std::string, a std::string_view and a char const* are each a list of bytes.
use Prim.Native.Nat.{ℕ}
use Prim.Native.Char.{code}
use Prim.Native.String.{String}
use mathlib.Core.Path.{◌≡◌, refl, sym, subst, ap}
use mathlib.Core.Logic.{◌↔◌}
use mathlib.Core.Bool.{Bool, true, false, ◌&&◌}
use mathlib.Core.List.{List, [], ◌∷◌, ◌++◌}
use native.Mathlib.Omega.{arith}
use octo_logger_cpp.Prelude.Tests.{◌==◌, Eq, if◌then◌else◌}
use octo_logger_cpp.Prelude.Lists.{length, take, drop}
use Prim.Native.Nat.{zero, suc, ◌-◌}
use mathlib.Core.Option.{Option, none, some}

abbrev pub Text : Type 0
Text = List ℕ

-- The bytes of a literal (which is ASCII).
abbrev pub codes : String → Text
codes String.[] = []
codes (String.◌∷◌ c s) = code c ∷ codes s

-- operator== of two strings
abbrev pub text_eq : Text → Text → Bool
text_eq [] [] = true
text_eq [] (d ∷ t) = false
text_eq (c ∷ s) [] = false
text_eq (c ∷ s) (d ∷ t) = c == d && text_eq s t

pub text_eq_iff : (s t : Text) → (text_eq s t ≡ true) ↔ (s ≡ t)
text_eq_iff [] [] = (λ _. refl, λ _. refl)
text_eq_iff [] (d ∷ t) = (λ h. cc, λ h. cc)
text_eq_iff (c ∷ s) [] = (λ h. cc, λ h. cc)
text_eq_iff (c ∷ s) (d ∷ t) = ground (arith, text_eq_iff s t)

instance abbrev pub text_Eq : Eq Text
text_Eq = record { beq = text_eq; beq_iff = text_eq_iff }

-- empty()
abbrev pub is_empty : Text → Bool
is_empty [] = true
is_empty (c ∷ s) = false

-- s.compare(0, strlen(p), p) == 0
abbrev pub starts_with : Text → Text → Bool
starts_with s [] = true
starts_with [] (c ∷ p) = false
starts_with (d ∷ s) (c ∷ p) = d == c && starts_with s p

pub starts_with-append : (p s : Text) → starts_with (p ++ s) p ≡ true
starts_with-append [] s = refl
starts_with-append (c ∷ p) s = ground (arith, starts_with-append p s)

pub starts_with-split : (s p : Text) → starts_with s p ≡ true → s ≡ p ++ drop (length p) s
starts_with-split s [] h = refl
starts_with-split [] (c ∷ p) h = cc
starts_with-split (d ∷ s) (c ∷ p) h = ground (arith, starts_with-split s p)

-- resize(n): the text cut to n bytes, or filled up with NUL.
abbrev pub zeros : ℕ → Text
zeros zero = []
zeros (suc n) = 0 ∷ zeros n

unfoldable pub resize : ℕ → Text → Text
resize n s = take n s ++ zeros (n - length s)

-- find_first_of(c): the position of the first c.
unfoldable pub find_first_of : ℕ → Text → Option ℕ
find_first_of c [] = none
find_first_of c (d ∷ s) =
    let rest = find_first_of c s in
    if d == c then some 0 else elim rest [ none ↦ none | some i ↦ some (suc i) ]

-- find(p, pos) of a text that is not empty, for pos within the text: the first place from pos on
-- where p stands.
unfoldable pub find_at : Text → ℕ → Text → Option ℕ
find_at p pos [] = none
find_at p zero (c ∷ s) =
    let rest = find_at p zero s in
    if starts_with (c ∷ s) p then some 0 else elim rest [ none ↦ none | some i ↦ some (suc i) ]
find_at p (suc pos) (c ∷ s) =
    let rest = find_at p pos s in elim rest [ none ↦ none | some i ↦ some (suc i) ]

-- Cutting a text to the length of what it starts with leaves that.
pub resize-append : (p s : Text) → resize (length p) (p ++ s) ≡ p
unfolding resize
resize-append [] s = let e : 0 - length s ≡ 0 = omega arith in rw e
resize-append (c ∷ p) s =
    let e : suc (length p) - suc (length (p ++ s)) ≡ length p - length (p ++ s) = omega arith in
    rw e (ap (λ t. c ∷ t) (resize-append p s))

pub resize-starts_with : (s p : Text) → starts_with s p ≡ true → resize (length p) s ≡ p
resize-starts_with s p h =
    subst (λ t. resize (length p) t ≡ p) (sym (starts_with-split s p h))
      (resize-append p (drop (length p) s))

-- A text that holds no c.
abbrev pub Lacks : ℕ → Text → Type 0
Lacks c [] = Unit {0}
Lacks c (d ∷ s) = ((d == c) ≡ false) × Lacks c s

-- The first c after a text that holds none.
pub find_first_of-append :
    (c : ℕ) (s t : Text) → Lacks c s → find_first_of c (s ++ c ∷ t) ≡ some (length s)
unfolding find_first_of
find_first_of-append c [] t h = ground arith
find_first_of-append c (d ∷ s) t h = rw (h.0, find_first_of-append c s t h.1)
