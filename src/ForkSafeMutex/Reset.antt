-- ===== src/ForkSafeMutex/Reset.antt =====
-- What fork_reset leaves.
use octo_logger_cpp.Prelude.{
  ℕ, zero, suc, ◌≡◌, refl, ap, Bool, true, false, not, ◌&&◌, some, [], ◌∷◌, ◌++◌, length, get_elem?,
  set, ◌==◌, ==_iff, Bool-cases, inl, inr, ◌⊎◌, get_elem?-append_last, arith,
}
use octo_logger_cpp.ForkSafeMutex.{Mutexes, ForkSafeMutex, is_free, try_lock, unlock, fork_reset}

-- Locked and unlocked again, a free mutex is as it was.
free_again :
    (ms : Mutexes) (p : ℕ)
    → is_free (get_elem? ms p) ≡ true
    → (set (set ms p true) p false ≡ ms) × (get_elem? ms p ≡ some false)
free_again [] p h = cc
free_again (true ∷ ms) zero h = cc
free_again (false ∷ ms) zero h = (refl, refl)
free_again (b ∷ ms) (suc p) h = let r = free_again ms p h in (ap (λ r. b ∷ r) r.0, r.1)

-- A mutex of this process, that can be locked.
abbrev pub IsReady : ℕ → Mutexes × ForkSafeMutex → Type 0
IsReady pid r = (r.1.mutex_pid ≡ pid) × (get_elem? r.0 r.1.mutex ≡ some false)

-- Either fork_reset finds that the mutex belongs to the process and does nothing, or the mutex is then a
-- free one that belongs to the process, even if it was locked by a thread that is no more and whether
-- or not try_lock fails for no reason; then it is the same mutex and none has changed, or it is the
-- one that is added after all there are; and a second reset does nothing.
pub fork_reset_lem :
    (spurious : Bool) (pid : ℕ) (f : ForkSafeMutex) (ms : Mutexes)
    → let r = fork_reset spurious pid f ms in
      ((f.mutex_pid ≡ pid) × (r ≡ (ms, f)))
      ⊎ (IsReady pid r
          × (fork_reset spurious pid r.1 r.0 ≡ r)
          × (((r.0 ≡ ms) × (r.1.mutex ≡ f.mutex))
              ⊎ ((r.0 ≡ ms ++ false ∷ []) × (r.1.mutex ≡ length ms))))
unfolding fork_reset try_lock unlock
fork_reset_lem spurious pid f ms = elim (Bool-cases (f.mutex_pid == pid)) [
  | inl y ↦ rw y (inl ((==_iff f.mutex_pid pid).0 y, refl))
  | inr n ↦
      let self : (pid == pid) ≡ true = (==_iff pid pid).1 refl in
      elim (Bool-cases (is_free (get_elem? ms f.mutex) && not spurious)) [
        | inl y ↦
            let free : is_free (get_elem? ms f.mutex) ≡ true = ground (arith, y) in
            let (back, was) = free_again ms f.mutex free in
            rw (n, y, back, self) (inr ((refl, was), refl, inl (refl, refl)))
        | inr u ↦
            rw (n, u, self) (inr ((refl, get_elem?-append_last ms false), refl, inr (refl, refl)))
      ]
]
