-- ===== src/Prelude/Decimal.antt =====
-- Decimal numbers as a std::ostream writes them and a std::istream reads them.
use Prim.Native.Nat.{ℕ, zero, suc, ◌+◌, ◌-◌, ◌*◌, ◌/◌, ◌%◌, ◌<◌, ◌≤◌}
use mathlib.Core.Path.{◌≡◌, refl}
use mathlib.Core.Bool.{Bool, true, false, ◌&&◌, ◌||◌}
use mathlib.Core.List.{[], ◌∷◌}
use mathlib.Core.Option.{Option, none, some}
use native.Mathlib.Omega.{arith}
use octo_logger_cpp.Prelude.Tests.{ltb, leb, ◌==◌, if◌then◌else◌}
use octo_logger_cpp.Prelude.Text.{Text}
use octo_logger_cpp.Prelude.Int.{ℤ, pos, negsuc}

abbrev pub is_digit : ℕ → Bool
is_digit c = leb b'0' c && leb c b'9'

-- The digits of n in front of `rest`; the fuel n + 1 is enough, since n / 10 < n.
unfoldable pub digits_before : ℕ → ℕ → Text → Text
digits_before zero n rest = rest
digits_before (suc fuel) n rest =
    let more = digits_before fuel (n / 10) ((b'0' + n % 10) ∷ rest) in
    if ltb n 10 then (b'0' + n) ∷ rest else more

unfoldable pub decimal : ℕ → Text
unfolding digits_before
decimal n = digits_before (suc n) n []

unfoldable pub int_text : ℤ → Text
unfolding decimal
int_text (pos n) = decimal n
int_text (negsuc n) = b'-' ∷ decimal (suc n)

-- The value of the digits at the front of a text, after those that `acc` stands for.
unfoldable pub read_digits : Text → ℕ → ℕ
read_digits [] acc = acc
read_digits (c ∷ s) acc =
    let rest = read_digits s (acc * 10 + (c - b'0')) in if is_digit c then rest else acc

-- white space of the "C" locale
abbrev pub is_space : ℕ → Bool
is_space c = c == b' ' || (leb 9 c && leb c 13)

unfoldable pub skip_spaces : Text → Text
skip_spaces [] = []
skip_spaces (c ∷ s) = let rest = skip_spaces s in if is_space c then rest else c ∷ s

-- An int is 32 bits wide: a value that does not fit is replaced by the nearest that does.
abbrev pub int_max : ℕ
int_max = 2147483647

abbrev pub clamp_int : Bool → ℕ → ℤ
clamp_int false n = pos (if ltb int_max n then int_max else n)
clamp_int true zero = pos 0
clamp_int true (suc n) = negsuc (if ltb int_max n then int_max else n)

-- After the sign. With no digit the extraction fails and stores 0.
unfoldable pub read_unsigned : Bool → Text → ℤ
read_unsigned negative s = clamp_int negative (read_digits s 0)

unfoldable pub read_signed : Text → Option ℤ
read_signed [] = none
read_signed (c ∷ s) =
    if c == b'-'
    then some (read_unsigned true s)
    else if c == b'+'
    then some (read_unsigned false s)
    else some (read_unsigned false (c ∷ s))

-- `stream >> out` for an int. If nothing but white space is left the extraction does not touch `out`,
-- which is not initialised: `none`.
unfoldable pub read_int : Text → Option ℤ
read_int s = read_signed (skip_spaces s)

read_digits-cons :
    (d acc : ℕ) (rest : Text)
    → d < 10
    → read_digits ((b'0' + d) ∷ rest) acc ≡ read_digits rest (acc * 10 + d)
unfolding read_digits
read_digits-cons d acc rest h = ground arith

read_digits_before :
    (fuel n : ℕ) (rest : Text)
    → n < fuel
    → read_digits (digits_before fuel n rest) 0 ≡ read_digits rest n
unfolding digits_before
read_digits_before zero n rest h = elim h [ ]
read_digits_before (suc fuel) n rest h = ground (
  arith,
  read_digits-cons n 0 rest,
  read_digits-cons (n % 10) (n / 10) rest,
  read_digits_before fuel (n / 10) ((b'0' + n % 10) ∷ rest),
)

-- The digits of a number are read back as that number.
pub read_digits-decimal : (n : ℕ) → read_digits (decimal n) 0 ≡ n
unfolding decimal read_digits
read_digits-decimal n = read_digits_before (suc n) n [] (omega arith)

-- A number starts with a digit.
abbrev StartsDigit : Text → Type 0
StartsDigit [] = ⊥
StartsDigit (c ∷ s) = is_digit c ≡ true

digits_before-StartsDigit :
    (fuel n : ℕ) (rest : Text) → n < fuel → StartsDigit (digits_before fuel n rest)
unfolding digits_before
digits_before-StartsDigit zero n rest h = elim h [ ]
digits_before-StartsDigit (suc fuel) n rest h =
    ground (arith, digits_before-StartsDigit fuel (n / 10) ((b'0' + n % 10) ∷ rest))

decimal-StartsDigit : (n : ℕ) → StartsDigit (decimal n)
unfolding decimal
decimal-StartsDigit n = digits_before-StartsDigit (suc n) n [] (omega arith)

read_int-StartsDigit :
    (s : Text) → StartsDigit s → read_int s ≡ some (clamp_int false (read_digits s 0))
unfolding read_int read_signed read_unsigned skip_spaces
read_int-StartsDigit [] h = absurd h
read_int-StartsDigit (c ∷ s) h = ground arith

-- The values of an int.
abbrev pub IsInt : ℤ → Type 0
IsInt (pos n) = n ≤ int_max
IsInt (negsuc n) = n ≤ int_max

read_int-minus : (s : Text) → read_int (b'-' ∷ s) ≡ some (clamp_int true (read_digits s 0))
unfolding read_int read_signed read_unsigned skip_spaces
read_int-minus s = refl

-- An int is read back from the text that is written for it.
pub read_int-int_text : (z : ℤ) → IsInt z → read_int (int_text z) ≡ some z
unfolding int_text
read_int-int_text (pos n) h =
    rw (read_int-StartsDigit (decimal n) (decimal-StartsDigit n), read_digits-decimal n)
      (ground arith)
read_int-int_text (negsuc n) h =
    rw (read_int-minus (decimal (suc n)), read_digits-decimal (suc n)) (ground arith)

-- std::stoi: `none` is an exception, for a text without digits in front or a number that is no int.
abbrev pub in_range : Bool → ℕ → Option ℤ
in_range false n = if leb n int_max then some (pos n) else none
in_range true zero = some (pos 0)
in_range true (suc n) = if leb n int_max then some (negsuc n) else none

abbrev pub stoi_digits : Bool → Text → Option ℤ
stoi_digits negative [] = none
stoi_digits negative (c ∷ s) =
    if is_digit c then in_range negative (read_digits (c ∷ s) 0) else none

abbrev pub stoi_signed : Text → Option ℤ
stoi_signed [] = none
stoi_signed (c ∷ s) =
    if c == b'-'
    then stoi_digits true s
    else if c == b'+'
    then stoi_digits false s
    else stoi_digits false (c ∷ s)

unfoldable pub stoi : Text → Option ℤ
stoi s = stoi_signed (skip_spaces s)

stoi-StartsDigit : (s : Text) → StartsDigit s → stoi s ≡ in_range false (read_digits s 0)
unfolding stoi skip_spaces
stoi-StartsDigit [] h = absurd h
stoi-StartsDigit (c ∷ s) h = ground arith

pub stoi-decimal : (n : ℕ) → n ≤ int_max → stoi (decimal n) ≡ some (pos n)
stoi-decimal n h =
    rw (stoi-StartsDigit (decimal n) (decimal-StartsDigit n), read_digits-decimal n) (ground arith)

-- What has no value, or one of an int.
abbrev pub HoldsInt : Option ℤ → Type 0
HoldsInt none = Unit {0}
HoldsInt (some z) = IsInt z

in_range-HoldsInt : (negative : Bool) (n : ℕ) → HoldsInt (in_range negative n)
in_range-HoldsInt false n = ground arith
in_range-HoldsInt true zero = ground arith
in_range-HoldsInt true (suc n) = ground arith

stoi_digits-HoldsInt : (negative : Bool) (s : Text) → HoldsInt (stoi_digits negative s)
stoi_digits-HoldsInt negative [] = tt
stoi_digits-HoldsInt negative (c ∷ s) =
    ground (arith, in_range-HoldsInt negative (read_digits (c ∷ s) 0))

stoi_signed-HoldsInt : (s : Text) → HoldsInt (stoi_signed s)
stoi_signed-HoldsInt [] = tt
stoi_signed-HoldsInt (c ∷ s) = ground (
  arith,
  stoi_digits-HoldsInt true s,
  stoi_digits-HoldsInt false s,
  stoi_digits-HoldsInt false (c ∷ s),
)

pub stoi-HoldsInt : (s : Text) → HoldsInt (stoi s)
unfolding stoi
stoi-HoldsInt s = stoi_signed-HoldsInt (skip_spaces s)
