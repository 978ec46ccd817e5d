-- ===== src/Prelude/Result.antt =====
-- A call that may throw. An exception is its type and, for std::runtime_error, its message.
use octo_logger_cpp.Prelude.Text.{Text}

pub data Exception : Type 0 where
  runtime_error : Text → Exception
  out_of_range : Exception

pub data Result {ℓ} (A : Type ℓ) : Type ℓ where
  ok : A → Result A
  throw : Exception → Result A

infixl 5 ◌>>=◌
abbrev pub ◌>>=◌ {ℓ κ} : {A : Type ℓ} {B : Type κ} → Result A → (A → Result B) → Result B
ok a >>= f = f a
throw x >>= f = throw x
