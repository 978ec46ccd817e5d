-- ===== src/Manager/Threads/Fork.antt =====
-- src/manager.cpp: child_on_fork in a process that was forked while threads were in the manager. The child has
-- the memory of the parent, with the mutexes as they were, and one thread.
use octo_logger_cpp.Prelude.{
  ◌≡◌, ◌≢◌, ◌<◌, ℕ, zero, suc, refl, sym, ap, ◌∙◌, subst, ◌⊎◌, inl, inr, Bool, true, false, Option,
  none, some, List, [], ◌∷◌, length, get_elem?, get_elem?-append, arith,
}
use octo_logger_cpp.Manager.{Manager, child_on_fork}
use octo_logger_cpp.ForkSafeMutex.{Mutexes, ForkSafeMutex, fork_reset}
use octo_logger_cpp.ForkSafeMutex.Reset.{fork_reset_lem}
use octo_logger_cpp.Manager.Threads.{Op, idle, System, begun, start}
use octo_logger_cpp.Manager.Threads.Finish.{Finishes, Run-Finishes}

-- The manager's two mutexes in the memory of the process.
pub record Locks : Type 0 where
  pub mutexes : Mutexes
  pub sinks : ForkSafeMutex
  pub context : ForkSafeMutex

-- sinks_mutex_.fork_reset(), then global_context_info_mutex_.fork_reset(). The first may fail to lock a
-- free mutex, and so may the second.
abbrev pub reset_context : Bool → ℕ → ForkSafeMutex → Mutexes × ForkSafeMutex → Locks
reset_context spurious pid context (ms, sinks) =
    let (after, f) = fork_reset spurious pid context ms in
    record { mutexes = after; sinks = sinks; context = f }

unfoldable pub reset_locks : Bool → Bool → ℕ → Locks → Locks
reset_locks spurious again pid l =
    reset_context again pid l.context (fork_reset spurious pid l.sinks l.mutexes)

-- Who owns a mutex in the child: a locked one belongs to a thread that is not there, which has the number 1
-- here, since the child's only thread has the number 0.
abbrev pub owner_of : Option Bool → Option ℕ
owner_of (some false) = none
owner_of (some true) = some 1
owner_of none = some 1

-- The child with its thread at `ops`.
abbrev pub child : Manager → Locks → List Op → System
child m l ops = record {
  shared = record {
    manager = m;
    sinks_mutex = owner_of (get_elem? l.mutexes l.sinks.mutex);
    global_context_info_mutex = owner_of (get_elem? l.mutexes l.context.mutex);
  };
  threads = idle ops ∷ [];
}

-- Two mutexes that are there, and not one and the same.
pub record Apart (l : Locks) : Type 0 where
  pub sinks_in : l.sinks.mutex < length l.mutexes
  pub context_in : l.context.mutex < length l.mutexes
  pub apart : l.sinks.mutex ≢ l.context.mutex

in_range : (ms : Mutexes) (p : ℕ) {b : Bool} → get_elem? ms p ≡ some b → p < length ms
in_range [] p e = cc
in_range (m ∷ ms) zero e = omega arith
in_range (m ∷ ms) (suc p) e = omega (arith, in_range ms p e)

-- In another process than it was made in, fork_reset leaves a free mutex, at its old place or at a new one
-- after all, and leaves the others as they are.
fork_reset-place :
    (spurious : Bool) (pid : ℕ) (f : ForkSafeMutex) (ms : Mutexes)
    → f.mutex_pid ≢ pid
    → let r = fork_reset spurious pid f ms in
      (get_elem? r.0 r.1.mutex ≡ some false)
      × ((r.1.mutex ≡ f.mutex) ⊎ (r.1.mutex ≡ length ms))
      × ((p : ℕ) → p < length ms → get_elem? r.0 p ≡ get_elem? ms p)
fork_reset-place spurious pid f ms other = elim (fork_reset_lem spurious pid f ms) [
  | inl (same, e) ↦ absurd (other same)
  | inr (ready, again, inl (kept, at)) ↦ (ready.1, inl at, λ p lt. ap (λ r. get_elem? r p) kept)
  | inr (ready, again, inr (added, at)) ↦ (
    ready.1,
    inr at,
    λ p lt. ap (λ r. get_elem? r p) added ∙ get_elem?-append ms (false ∷ []) p lt,
  )
]

-- In the child both mutexes are free, and still two.
reset_locks-free :
    (spurious again : Bool) (pid : ℕ) (l : Locks)
    → Apart l
    → l.sinks.mutex_pid ≢ pid
    → l.context.mutex_pid ≢ pid
    → let after = reset_locks spurious again pid l in
      (get_elem? after.mutexes after.sinks.mutex ≡ some false)
      × (get_elem? after.mutexes after.context.mutex ≡ some false)
      × (after.sinks.mutex ≢ after.context.mutex)
unfolding reset_locks
reset_locks-free spurious again pid l a s c =
    let first = fork_reset spurious pid l.sinks l.mutexes in
    let second = fork_reset again pid l.context first.0 in
    let (free, at, same) = fork_reset-place spurious pid l.sinks l.mutexes s in
    let (free2, at2, same2) = fork_reset-place again pid l.context first.0 c in
    let there : first.1.mutex < length first.0 = in_range first.0 first.1.mutex free in
    (
      same2 first.1.mutex there ∙ free,
      free2,
      λ e. elim at2 [
        | inr last ↦ omega (arith, e, last, there)
        | inl kept2 ↦ elim at [
          | inr last ↦ omega (arith, e, kept2, last, a.context_in)
          | inl kept ↦ a.apart (sym kept ∙ e ∙ kept2)
        ]
      ],
    )

-- A child of a process with the manager's two mutexes, forked at any moment, whichever of them are locked:
-- after child_on_fork both are free and still two, and the thread of the child starts its operations as in
-- a manager that nobody uses, and comes to the end of them.
pub child_on_fork-Finishes :
    (spurious again : Bool) (pid : ℕ) (l : Locks) (m : Manager) (ops : List Op)
    → Apart l
    → l.sinks.mutex_pid ≢ pid
    → l.context.mutex_pid ≢ pid
    → let after = reset_locks spurious again pid l in
      let forked = child (child_on_fork m) after ops in
      (after.sinks.mutex ≢ after.context.mutex)
      × (forked ≡ start (child_on_fork m) (ops ∷ []))
      × Finishes forked
child_on_fork-Finishes spurious again pid l m ops a s c =
    let (free, free2, apart) = reset_locks-free spurious again pid l a s c in
    let forked = child (child_on_fork m) (reset_locks spurious again pid l) ops in
    let same : forked ≡ start (child_on_fork m) (ops ∷ []) = rw (free, free2) refl in
    (
      apart,
      same,
      subst Finishes (sym same)
          (Run-Finishes (child_on_fork m) (ops ∷ []) (start (child_on_fork m) (ops ∷ [])) begun).0,
    )
