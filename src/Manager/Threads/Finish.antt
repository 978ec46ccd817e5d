-- ===== src/Manager/Threads/Finish.antt =====
-- Threads in the manager of src/manager.cpp come to the end of what they do.
use octo_logger_cpp.Prelude.{
  ◌≡◌, ◌≤◌, ◌<◌, ◌+◌, ℕ, zero, suc, refl, ◌⊎◌, inl, inr, none, some, List, [], ◌∷◌, length,
  get_elem?, All, Option-cases, arith,
}
use octo_logger_cpp.Manager.{Manager}
use octo_logger_cpp.Manager.Threads.{
  Op, dump_op, broadcast_op, clear_op, replace_op, update_op, Pc, idle, reading, copying, replacing,
  handing, calling, clearing, leaving, Shared, lock_read, lock_copy, lock_replace, lock_sinks,
  lock_clear, System, Step, pick, Run, begun, later, start,
}
use octo_logger_cpp.Manager.Threads.Locks.{Locked, Step-Locked, Run-Locked, start-Locked}
use octo_logger_cpp.Manager.Threads.Progress.{
  Ready, sinks_Ready, context_Ready, remaining, Step-remaining,
}

-- A thread that has nothing left to do.
abbrev pub IsDone : Pc → Type 0
IsDone p = p ≡ idle []

-- With both locks free every thread that is not done can take a step.
free_Ready :
    (s : Shared) (p : Pc)
    → s.sinks_mutex ≡ none
    → s.global_context_info_mutex ≡ none
    → IsDone p ⊎ Ready s p
free_Ready s (idle []) e f = inl refl
free_Ready s (idle (dump_op l c ci ∷ ops)) e f = inr (λ i. (_, _, lock_read f))
free_Ready s (idle (broadcast_op call ∷ ops)) e f = inr (λ i. (_, _, lock_sinks e))
free_Ready s (idle (clear_op ∷ ops)) e f = inr (λ i. (_, _, lock_clear e))
free_Ready s (idle (replace_op ci ∷ ops)) e f = inr (λ i. (_, _, lock_replace f))
free_Ready s (idle (update_op ci ∷ ops)) e f = inr (λ i. (_, _, lock_copy f))
free_Ready s (reading l c ci ops) e f = inr (context_Ready s (reading l c ci ops) refl)
free_Ready s (copying ci ops) e f = inr (context_Ready s (copying ci ops) refl)
free_Ready s (replacing ci ops) e f = inr (context_Ready s (replacing ci ops) refl)
free_Ready s (handing ops) e f = inr (context_Ready s (handing ops) refl)
free_Ready s (calling call ps ops) e f = inr (sinks_Ready s (calling call ps ops) refl)
free_Ready s (clearing ops) e f = inr (sinks_Ready s (clearing ops) refl)
free_Ready s (leaving ops) e f = inr (sinks_Ready s (leaving ops) refl)

-- The first thread of a list that is ready.
module _ (s : Shared) where
  Found : List Pc → Type 0
  Found threads = (i : ℕ) × (p : Pc) × (get_elem? threads i ≡ some p) × Ready s p

  first_Ready :
      (threads : List Pc) → ((p : Pc) → IsDone p ⊎ Ready s p) → All IsDone threads ⊎ Found threads
  unfolding Found
  first_Ready [] can = inl tt
  first_Ready (p ∷ threads) can = elim (can p) [
    | inr ready ↦ inr (0, p, refl, ready)
    | inl done ↦ elim (first_Ready threads can) [
      | inl all ↦ inl (done, all)
      | inr (i, q, at, ready) ↦ inr (suc i, q, at, ready)
    ]
  ]

  -- The thread that a lock is recorded for.
  owner-Found :
      (threads : List Pc) (i : ℕ)
      → i < length threads
      → ((p : Pc) → get_elem? threads i ≡ some p → Ready s p)
      → Found threads
  unfolding Found
  owner-Found threads i lt can = elim (Option-cases (get_elem? threads i)) [
    | inl e ↦ absurd (in_range threads i lt e)
    | inr (p, e) ↦ (i, p, e, can p e)
  ]
    where
      in_range : (xs : List Pc) (i : ℕ) → i < length xs → get_elem? xs i ≡ none → ⊥
      in_range [] i lt e = elim lt [ ]
      in_range (x ∷ xs) zero lt e = cc
      in_range (x ∷ xs) (suc i) lt e = in_range xs i (omega arith) e

Locked-Found : (s : System) → Locked s → All IsDone s.threads ⊎ Found s.shared s.threads
Locked-Found s l = elim (Option-cases s.shared.sinks_mutex) [
  | inr (i, e) ↦ inr (
      owner-Found s.shared s.threads i (l.sinks.alive i e)
        (λ p at. sinks_Ready s.shared p ((l.sinks.known i p at).1 e)))
  | inl e ↦ elim (Option-cases s.shared.global_context_info_mutex) [
    | inr (i, f) ↦ inr (
        owner-Found s.shared s.threads i (l.context.alive i f)
          (λ p at. context_Ready s.shared p ((l.context.known i p at).1 f)))
    | inl f ↦ first_Ready s.shared s.threads (λ p. free_Ready s.shared p e f)
  ]
]

CanStep : System → Type 0
CanStep s = (t : System) × Step s t

progress : (s : System) → Locked s → All IsDone s.threads ⊎ CanStep s
unfolding Found CanStep
progress s l = elim (Locked-Found s l) [
  | inl done ↦ inl done
  | inr (i, p, at, ready) ↦ let (m, q, mv) = ready i in inr (_, pick i p at mv)
]

Run-step : {s t u : System} → Step s t → Run t u → Run s u
Run-step st begun = later begun st
Run-step st (later r last) = later (Run-step st r) last

-- A state that the threads can come to, with all of them done.
abbrev pub Finishes : System → Type 0
Finishes s = (t : System) × Run s t × All IsDone t.threads

finish : (fuel : ℕ) (s : System) → Locked s → remaining s < fuel → Finishes s
unfolding CanStep
finish zero s l h = elim h [ ]
finish (suc fuel) s l h = elim (progress s l) [
  | inl done ↦ (s, begun, done)
  | inr (t, st) ↦
      let (u, r, done) = finish fuel t (Step-Locked st l) (omega (arith, Step-remaining st)) in
      (u, Run-step st r, done)
]

abbrev pub run_length : {s t : System} → Run s t → ℕ
run_length begun = 0
run_length (later r st) = suc (run_length r)

run_length-remaining : {s t : System} (r : Run s t) → run_length r + remaining t ≤ remaining s
run_length-remaining begun = omega arith
run_length-remaining (later r st) = omega (arith, run_length-remaining r, Step-remaining st)

-- From every state that the threads come to they can go on until all are done, and no run has more steps
-- than `remaining` counts at the start: so threads that go on whenever they can come to the end.
pub Run-Finishes :
    (m : Manager) (programs : List (List Op)) (s : System) (r : Run (start m programs) s)
    → Finishes s × (run_length r ≤ remaining (start m programs))
Run-Finishes m programs s r = (
  finish (suc (remaining s)) s (Run-Locked r (start-Locked m programs)) (omega arith),
  omega (arith, run_length-remaining r),
)
