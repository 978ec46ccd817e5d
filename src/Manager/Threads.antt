-- ===== src/Manager/Threads.antt =====
-- The manager used by several threads at once, as src/manager.cpp locks it: one step is one access under a
-- lock, or one call on a sink, and the threads take their steps in any order.
pub mod Locks
pub mod Serial
pub mod Order
pub mod Progress
pub mod Finish
pub mod Fork
mod Tests
use octo_logger_cpp.Prelude.{
  ℕ, ◌≡◌, Bool, true, false, Option, none, some, List, [], ◌∷◌, ◌++◌, get_elem?, set,
}
use octo_logger_cpp.Context.{ContextInfo, update}
use octo_logger_cpp.Channel.{Channel, Log}
use octo_logger_cpp.Manager.{
  Manager, SinkPtr, Call, dump_call, stop_call, restart_call, clear_sinks,
  replace_global_context_info,
}

-- What a thread has still to do in the manager. `broadcast_op` is the loop over the sinks under
-- sinks_mutex_, as stop and restart_sinks have it, and dump as its second part.
pub data Op : Type 0 where
  dump_op : Log → Channel → ContextInfo → Op
  broadcast_op : Call → Op
  clear_op : Op
  replace_op : ContextInfo → Op
  update_op : ContextInfo → Op

-- stop(discard), restart_sinks(), and terminate() as far as the sinks go.
abbrev pub stop_ops : Bool → List Op
stop_ops discard = broadcast_op (stop_call discard) ∷ []

abbrev pub restart_ops : List Op
restart_ops = broadcast_op restart_call ∷ []

abbrev pub terminate_ops : List Op
terminate_ops = stop_ops false ++ clear_op ∷ []

-- Where a thread stands, with the operations after the one it is in. The first three below `idle` hold
-- global_context_info_mutex_ and so does `handing`, the last three hold sinks_mutex_.
pub data Pc : Type 0 where
  idle : List Op → Pc
  reading : Log → Channel → ContextInfo → List Op → Pc  -- dump, before it copies the pointer
  copying : ContextInfo → List Op → Pc  -- update_global_context_info, before it copies the pointer
  replacing : ContextInfo → List Op → Pc  -- replace_global_context_info_rvalue, before it writes
  handing : List Op → Pc  -- before the context info's lock is given back
  calling : Call → List SinkPtr → List Op → Pc  -- the sinks that are still to be called
  clearing : List Op → Pc
  leaving : List Op → Pc  -- before the sinks' lock is given back

-- The manager and the owners of its two locks.
pub record Shared : Type 0 where
  pub manager : Manager
  pub sinks_mutex : Option ℕ
  pub global_context_info_mutex : Option ℕ

abbrev pub with_call : SinkPtr → Call → Manager → Manager
with_call p call m = record m {
  memory = record m.memory { calls = m.memory.calls ++ (p, call) ∷ [] };
}

-- One step of the thread i. A step that takes a lock needs it to be free.
pub data Move (i : ℕ) (s : Shared) : Pc → Shared → Pc → Type 0 where
  lock_read :
      {l : Log} {c : Channel} {ci : ContextInfo} {ops : List Op}
      → s.global_context_info_mutex ≡ none
      → Move i s
          (idle (dump_op l c ci ∷ ops))
          (record s { global_context_info_mutex = some i })
          (reading l c ci ops)
  do_read :
      {l : Log} {c : Channel} {ci : ContextInfo} {ops : List Op}
      → Move i s
          (reading l c ci ops)
          s
          (handing (broadcast_op (dump_call l c ci s.manager.global_context_info) ∷ ops))
  lock_copy :
      {ci : ContextInfo} {ops : List Op}
      → s.global_context_info_mutex ≡ none
      → Move i s
          (idle (update_op ci ∷ ops))
          (record s { global_context_info_mutex = some i })
          (copying ci ops)
  do_copy :
      {ci : ContextInfo} {ops : List Op}
      → Move i s
          (copying ci ops)
          s
          (handing (replace_op (update s.manager.global_context_info ci) ∷ ops))
  lock_replace :
      {ci : ContextInfo} {ops : List Op}
      → s.global_context_info_mutex ≡ none
      → Move i s
          (idle (replace_op ci ∷ ops))
          (record s { global_context_info_mutex = some i })
          (replacing ci ops)
  do_replace :
      {ci : ContextInfo} {ops : List Op}
      → Move i s
          (replacing ci ops)
          (record s { manager = replace_global_context_info ci s.manager })
          (handing ops)
  unlock_context :
      {ops : List Op}
      → Move i s (handing ops) (record s { global_context_info_mutex = none }) (idle ops)
  lock_sinks :
      {call : Call} {ops : List Op}
      → s.sinks_mutex ≡ none
      → Move i s
          (idle (broadcast_op call ∷ ops))
          (record s { sinks_mutex = some i })
          (calling call s.manager.sinks ops)
  call_one :
      {call : Call} {p : SinkPtr} {ps : List SinkPtr} {ops : List Op}
      → Move i s
          (calling call (p ∷ ps) ops)
          (record s { manager = with_call p call s.manager })
          (calling call ps ops)
  unlock_called :
      {call : Call} {ops : List Op}
      → Move i s (calling call [] ops) (record s { sinks_mutex = none }) (idle ops)
  lock_clear :
      {ops : List Op}
      → s.sinks_mutex ≡ none
      → Move i s (idle (clear_op ∷ ops)) (record s { sinks_mutex = some i }) (clearing ops)
  do_clear :
      {ops : List Op}
      → Move i s (clearing ops) (record s { manager = clear_sinks s.manager }) (leaving ops)
  unlock_cleared :
      {ops : List Op} → Move i s (leaving ops) (record s { sinks_mutex = none }) (idle ops)

pub record System : Type 0 where
  pub shared : Shared
  pub threads : List Pc

pub data Step (s : System) : System → Type 0 where
  pick :
      (i : ℕ) (p : Pc) {m : Shared} {q : Pc}
      → get_elem? s.threads i ≡ some p
      → Move i s.shared p m q
      → Step s (record { shared = m; threads = set s.threads i q })

-- Any number of steps.
pub data Run (s : System) : System → Type 0 where
  begun : Run s s
  later : {t u : System} → Run s t → Step t u → Run s u

-- Nobody is in the manager.
abbrev pub starts : List (List Op) → List Pc
starts [] = []
starts (ops ∷ rest) = idle ops ∷ starts rest

abbrev pub start : Manager → List (List Op) → System
start m programs = record {
  shared = record { manager = m; sinks_mutex = none; global_context_info_mutex = none };
  threads = starts programs;
}
