-- ===== src/ForkSafeMutex/Tests.antt =====
-- A mutex that is locked at the fork, and the theorem at it.
use octo_logger_cpp.Prelude.{◌≡◌, refl, true, false, [], ◌∷◌}
use octo_logger_cpp.ForkSafeMutex.{ForkSafeMutex, fork_reset, try_lock, unlock, make}

abbrev of_parent : ForkSafeMutex
of_parent = record { mutex = 0; mutex_pid = 1 }

runs : Unit {0}
unfolding fork_reset try_lock unlock make
runs =
    let new : make 1 [] ≡ (false ∷ [], of_parent) = refl in
    let leaked : fork_reset false 2 of_parent (true ∷ [])
        ≡ (true ∷ false ∷ [], record { mutex = 1; mutex_pid = 2 }) =
      refl in
    let kept : fork_reset false 2 of_parent (false ∷ [])
        ≡ (false ∷ [], record { mutex = 0; mutex_pid = 2 }) =
      refl in
    tt
