-- ===== src/Manager/Threads/Progress.antt =====
-- Threads in the manager of src/manager.cpp do not stop each other for ever: no thread takes a lock while it
-- holds the other, so one of them can go on, and each step brings the end nearer.
use octo_logger_cpp.Prelude.{
  ◌≡◌, ◌≤◌, ◌<◌, ◌+◌, ℕ, zero, suc, sym, subst, true, some, List, [], ◌∷◌, length, get_elem?, set,
  some_inj, arith,
}
use octo_logger_cpp.Manager.{clear_sinks, replace_global_context_info}
use octo_logger_cpp.Manager.Threads.{
  Op, dump_op, broadcast_op, clear_op, replace_op, update_op, Pc, idle, reading, copying, replacing,
  handing, calling, clearing, leaving, Shared, Move, lock_read, do_read, lock_copy, do_copy,
  lock_replace, do_replace, unlock_context, lock_sinks, call_one, unlock_called, lock_clear,
  do_clear, unlock_cleared, System, Step, pick,
}
use octo_logger_cpp.Manager.Threads.Locks.{holds_sinks, holds_context}

-- The steps that an operation and a thread still take, if there are n sinks.
abbrev pub op_work : ℕ → Op → ℕ
op_work n (dump_op l c ci) = 3 + (n + 2)
op_work n (broadcast_op call) = n + 2
op_work n clear_op = 3
op_work n (replace_op ci) = 3
op_work n (update_op ci) = 6

abbrev pub ops_work : ℕ → List Op → ℕ
ops_work n [] = 0
ops_work n (op ∷ ops) = op_work n op + ops_work n ops

abbrev pub work : ℕ → Pc → ℕ
work n (idle ops) = ops_work n ops
work n (reading l c ci ops) = 2 + (n + 2) + ops_work n ops
work n (copying ci ops) = 5 + ops_work n ops
work n (replacing ci ops) = 2 + ops_work n ops
work n (handing ops) = 1 + ops_work n ops
work n (calling call ps ops) = length ps + 1 + ops_work n ops
work n (clearing ops) = 2 + ops_work n ops
work n (leaving ops) = 1 + ops_work n ops

abbrev pub total : ℕ → List Pc → ℕ
total n [] = 0
total n (p ∷ threads) = work n p + total n threads

abbrev pub remaining : System → ℕ
remaining s = total (length s.shared.manager.sinks) s.threads

op_work_mono : (a b : ℕ) (op : Op) → a ≤ b → op_work a op ≤ op_work b op
op_work_mono a b (dump_op l c ci) h = omega arith
op_work_mono a b (broadcast_op call) h = omega arith
op_work_mono a b clear_op h = omega arith
op_work_mono a b (replace_op ci) h = omega arith
op_work_mono a b (update_op ci) h = omega arith

ops_work_mono : (a b : ℕ) (ops : List Op) → a ≤ b → ops_work a ops ≤ ops_work b ops
ops_work_mono a b [] h = omega arith
ops_work_mono a b (op ∷ ops) h = omega (arith, op_work_mono a b op h, ops_work_mono a b ops h)

work_mono : (a b : ℕ) (p : Pc) → a ≤ b → work a p ≤ work b p
work_mono a b (idle ops) h = ops_work_mono a b ops h
work_mono a b (reading l c ci ops) h = omega (arith, ops_work_mono a b ops h)
work_mono a b (copying ci ops) h = omega (arith, ops_work_mono a b ops h)
work_mono a b (replacing ci ops) h = omega (arith, ops_work_mono a b ops h)
work_mono a b (handing ops) h = omega (arith, ops_work_mono a b ops h)
work_mono a b (calling call ps ops) h = omega (arith, ops_work_mono a b ops h)
work_mono a b (clearing ops) h = omega (arith, ops_work_mono a b ops h)
work_mono a b (leaving ops) h = omega (arith, ops_work_mono a b ops h)

total_mono : (a b : ℕ) (threads : List Pc) → a ≤ b → total a threads ≤ total b threads
total_mono a b [] h = omega arith
total_mono a b (p ∷ threads) h = omega (arith, work_mono a b p h, total_mono a b threads h)

-- The number of sinks does not grow, and the thread that moves has less to do.
Move-work :
    {i : ℕ} {s t : Shared} {p q : Pc}
    → Move i s p t q
    → (length t.manager.sinks ≤ length s.manager.sinks)
      × (work (length t.manager.sinks) q < work (length s.manager.sinks) p)
unfolding clear_sinks replace_global_context_info
Move-work (lock_read e) = (omega arith, omega arith)
Move-work do_read = (omega arith, omega arith)
Move-work (lock_copy e) = (omega arith, omega arith)
Move-work do_copy = (omega arith, omega arith)
Move-work (lock_replace e) = (omega arith, omega arith)
Move-work do_replace = (omega arith, omega arith)
Move-work unlock_context = (omega arith, omega arith)
Move-work (lock_sinks e) = (omega arith, omega arith)
Move-work call_one = (omega arith, omega arith)
Move-work unlock_called = (omega arith, omega arith)
Move-work (lock_clear e) = (omega arith, omega arith)
Move-work {s} (do_clear {ops}) =
    (omega arith, omega (arith, ops_work_mono 0 (length s.manager.sinks) ops (omega arith)))
Move-work unlock_cleared = (omega arith, omega arith)

total-set :
    (a b : ℕ) (threads : List Pc) (i : ℕ) (p q : Pc)
    → a ≤ b
    → get_elem? threads i ≡ some p
    → work a q < work b p
    → total a (set threads i q) < total b threads
total-set a b [] i p q h at w = cc
total-set a b (r ∷ threads) zero p q h at w =
    let e = some_inj at in
    let v = subst (λ o. work a q < work b o) (sym e) w in omega (arith, total_mono a b threads h)
total-set a b (r ∷ threads) (suc i) p q h at w =
    omega (arith, work_mono a b r h, total-set a b threads i p q h at w)

pub Step-remaining : {s t : System} → Step s t → remaining t < remaining s
Step-remaining {s} (pick i p {m} {q} at mv) =
    let (le, lt) = Move-work mv in
    total-set (length m.manager.sinks) (length s.shared.manager.sinks) s.threads i p q le at lt

-- A thread that can take a step.
abbrev pub Ready : Shared → Pc → Type 0
Ready s p = (i : ℕ) → (m : Shared) × (q : Pc) × Move i s p m q

pub sinks_Ready : (s : Shared) (p : Pc) → holds_sinks p ≡ true → Ready s p
sinks_Ready s (calling call [] ops) h i = (_, _, unlock_called)
sinks_Ready s (calling call (r ∷ ps) ops) h i = (_, _, call_one)
sinks_Ready s (clearing ops) h i = (_, _, do_clear)
sinks_Ready s (leaving ops) h i = (_, _, unlock_cleared)
sinks_Ready s (idle ops) h i = cc
sinks_Ready s (reading l c ci ops) h i = cc
sinks_Ready s (copying ci ops) h i = cc
sinks_Ready s (replacing ci ops) h i = cc
sinks_Ready s (handing ops) h i = cc

pub context_Ready : (s : Shared) (p : Pc) → holds_context p ≡ true → Ready s p
context_Ready s (reading l c ci ops) h i = (_, _, do_read)
context_Ready s (copying ci ops) h i = (_, _, do_copy)
context_Ready s (replacing ci ops) h i = (_, _, do_replace)
context_Ready s (handing ops) h i = (_, _, unlock_context)
context_Ready s (idle ops) h i = cc
context_Ready s (calling call ps ops) h i = cc
context_Ready s (clearing ops) h i = cc
context_Ready s (leaving ops) h i = cc
