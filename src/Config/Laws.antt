-- ===== src/Config/Laws.antt =====
-- What the options and the lists of sinks hold after each operation.
pub mod Removal
use octo_logger_cpp.Prelude.{
  ℕ, ◌≤◌, ◌≡◌, ◌≢◌, refl, ap, sym, ◌∙◌, ◌↔◌, ◌⊎◌, inl, inr, Bool, true, false, not, Option, none,
  some, List, [], ◌∷◌, ◌++◌, ◌==◌, Eq, All, if◌then◌else◌, arith, Option-cases, Bool-cases,
}
use octo_logger_cpp.Prelude.Text.{Text, text_eq, text_eq_iff}
use octo_logger_cpp.Prelude.Int.{ℤ, pos, negsuc}
use octo_logger_cpp.Prelude.Decimal.{
  int_text, read_int, read_signed, read_unsigned, read_digits, skip_spaces, IsInt,
  read_int-int_text,
}
use octo_logger_cpp.Prelude.Map.{
  Map, find, insert_or_assign, erase, contains, has, find-insert_or_assign, find-erase,
  contains-find,
}
use octo_logger_cpp.Config.SinkConfig.{
  SinkConfig, SinkOption, index, option_Eq, index_iff, has_option, remove_option, set_option,
  set_option_int, set_option_bool, bool_text, option, text_or, option_default, option_default_int,
  option_default_bool, int_bool,
}

abbrev same : SinkOption → SinkOption → Bool
same a b = index a == index b

option_default-find :
    (o : SinkOption) (d : Text) (c : SinkConfig)
    → option_default o d c ≡ text_or (find o c.options) d
unfolding option_default has_option option
option_default-find o d c = ground (arith, contains-find o c.options)

option_default-set_option :
    (o p : SinkOption) (d value : Text) (c : SinkConfig)
    → option_default o d (set_option p value c) ≡ (if same p o then value else option_default o d c)
unfolding set_option
option_default-set_option o p d value c =
    rw
      (
        option_default-find o d (record c { options = insert_or_assign p value c.options }),
        option_default-find o d c,
        find-insert_or_assign p o value c.options,
      )
      (ground arith)

-- An int that is set is the int that is read back, whatever the default; any other option reads as
-- before.
pub option_default_int-set_option_int :
    (o p : SinkOption) (d z : ℤ) (c : SinkConfig)
    → IsInt z
    → option_default_int o d (set_option_int p z c)
      ≡ (if same p o then some z else option_default_int o d c)
unfolding option_default_int set_option_int
option_default_int-set_option_int o p d z c h =
    rw (option_default-set_option o p (int_text d) (int_text z) c)
      (ground (arith, read_int-int_text z h))

read_bool : (b : Bool) → int_bool (read_int (bool_text b)) ≡ some b
unfolding read_int read_signed read_unsigned skip_spaces read_digits
read_bool false = refl
read_bool true = refl

-- The same of a bool.
pub option_default_bool-set_option_bool :
    (o p : SinkOption) (d b : Bool) (c : SinkConfig)
    → option_default_bool o d (set_option_bool p b c)
      ≡ (if same p o then some b else option_default_bool o d c)
unfolding option_default_bool set_option_bool
option_default_bool-set_option_bool o p d b c =
    rw (option_default-set_option o p (bool_text d) (bool_text b) c) (ground (arith, read_bool b))

read_int-none : (s : Text) → (read_int s ≡ none) ↔ (skip_spaces s ≡ [])
unfolding read_int
read_int-none s = blank (skip_spaces s)
  where
    blank : (t : Text) → (read_signed t ≡ none) ↔ (t ≡ [])
    blank [] = (λ _. refl, λ _. unfold read_signed in refl)
    blank (c ∷ t) = (λ e. absurd (unfold read_signed in ground arith), λ e. absurd (cc))

-- An int option has no determined value just when its text is blank: convert_to<int> then returns a
-- variable that nothing has initialised. (The default is an int.)
pub option_default_int_blank :
    (o : SinkOption) (d : ℤ) (c : SinkConfig)
    → IsInt d
    → (option_default_int o d c ≡ none)
      ↔ ((s : Text) × (option o c ≡ some s) × (skip_spaces s ≡ []))
unfolding option_default_int option
option_default_int_blank o d c h = rw (option_default-find o (int_text d) c) (there, back)
  where
    there :
        read_int (text_or (find o c.options) (int_text d)) ≡ none
        → (s : Text) × (find o c.options ≡ some s) × (skip_spaces s ≡ [])
    there e = elim (Option-cases (find o c.options)) [
      | inl gone ↦ absurd (ground (arith, gone, read_int-int_text d h))
      | inr (s, f) ↦ (s, f, (read_int-none s).0 (rw f at e))
    ]

    back :
        (s : Text) × (find o c.options ≡ some s) × (skip_spaces s ≡ [])
        → read_int (text_or (find o c.options) (int_text d)) ≡ none
    back (s, f, blank) = rw f ((read_int-none s).1 blank)

-- remove_option takes the option away, says whether it was there, and keeps every other option.
pub remove_option_lem :
    (o p : SinkOption) (c : SinkConfig)
    → ((remove_option o c).1 ≡ has_option o c)
      × (option p (remove_option o c).0 ≡ (if same o p then none else option p c))
unfolding remove_option has_option option
remove_option_lem o p c =
    ground (arith, find-erase o p c.options, contains-find o c.options, index_iff o p)
