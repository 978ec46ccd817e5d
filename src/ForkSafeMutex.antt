-- ===== src/ForkSafeMutex.antt =====
-- src/fork-safe-mutex.cpp: a mutex that a child process can go on with. A mutex is an address in a list
-- that tells of each one whether it is locked; fork copies the list, and with it locks whose owners
-- are not in the child.
pub mod Reset
mod Tests
use octo_logger_cpp.Prelude.{
  ℕ, Bool, true, false, not, ◌&&◌, Option, none, some, List, [], ◌∷◌, ◌++◌, length, get_elem?, set,
  ◌==◌, if◌then◌else◌,
}

abbrev pub Mutexes : Type 0
Mutexes = List Bool

pub record ForkSafeMutex : Type 0 where
  pub mutex : ℕ
  pub mutex_pid : ℕ

abbrev pub is_free : Option Bool → Bool
is_free none = false
is_free (some locked) = not locked

-- try_lock() and whether it took the lock. The C++ standard lets it fail on a free mutex: `spurious`.
abbrev pub lock_if : Bool → ℕ → Mutexes → Mutexes × Bool
lock_if true p ms = (set ms p true, true)
lock_if false p ms = (ms, false)

unfoldable pub try_lock : Bool → ℕ → Mutexes → Mutexes × Bool
try_lock spurious p ms = lock_if (is_free (get_elem? ms p) && not spurious) p ms

unfoldable pub unlock : ℕ → Mutexes → Mutexes
unlock p ms = set ms p false

-- ForkSafeMutex()
unfoldable pub make : ℕ → Mutexes → Mutexes × ForkSafeMutex
make pid ms = (ms ++ false ∷ [], record { mutex = length ms; mutex_pid = pid })

-- A mutex that cannot be locked is leaked, and a new one takes its place.
abbrev pub reset_with : ℕ → ForkSafeMutex → Mutexes × Bool → Mutexes × ForkSafeMutex
reset_with pid f (ms, true) = (unlock f.mutex ms, record f { mutex_pid = pid })
reset_with pid f (ms, false) = (ms ++ false ∷ [], record { mutex = length ms; mutex_pid = pid })

unfoldable pub fork_reset : Bool → ℕ → ForkSafeMutex → Mutexes → Mutexes × ForkSafeMutex
fork_reset spurious pid f ms =
    if f.mutex_pid == pid then (ms, f) else reset_with pid f (try_lock spurious f.mutex ms)
