-- ===== src/Manager/Threads/Serial.antt =====
-- What threads do in the manager of src/manager.cpp at once, as one sequence of whole operations.
use octo_logger_cpp.Prelude.{
  ◌≡◌, ◌≢◌, ℕ, refl, sym, ap, ◌∙◌, true, false, Option, none, some, List, [], ◌∷◌, ◌++◌, map,
  append_assoc, append-nil, get_elem?, set, get_elem?-set_self, get_elem?-set_ne, get_elem?-lt,
}
use octo_logger_cpp.Context.{ContextInfo, update}
use octo_logger_cpp.Channel.{Channel, Log}
use octo_logger_cpp.Manager.{
  Manager, SinkPtr, Call, dump_call, call_sinks, clear_sinks, replace_global_context_info,
}
use octo_logger_cpp.Manager.Threads.{
  Op, dump_op, broadcast_op, clear_op, replace_op, update_op, Pc, idle, reading, copying, replacing,
  handing, calling, clearing, leaving, Shared, Move, lock_read, do_read, lock_copy, do_copy,
  lock_replace, do_replace, unlock_context, lock_sinks, call_one, unlock_called, lock_clear,
  do_clear, unlock_cleared, System,
}
use octo_logger_cpp.Manager.Threads.Locks.{Owned, holds_sinks}

-- A whole operation: a call on every sink, the clearing of the sinks, or a new global context info.
pub data Event : Type 0 where
  call_event : Call → Event
  clear_event : Event
  replace_event : ContextInfo → Event

abbrev pub perform : Event → Manager → Manager
perform (call_event call) m = call_sinks call m
perform clear_event m = clear_sinks m
perform (replace_event ci) m = replace_global_context_info ci m

-- Operations one after the other, each with the number of its thread.
abbrev pub play : List (ℕ × Event) → Manager → Manager
play [] m = m
play ((i, e) ∷ trace) m = play trace (perform e m)

-- The manager with the calls that the holder of sinks_mutex_ has still to make.
abbrev pub pending : Option Pc → List (SinkPtr × Call)
pending (some (calling call ps ops)) = map (λ p. (p, call)) ps
pending _ = []

abbrev pub pending_of : Option ℕ → List Pc → List (SinkPtr × Call)
pending_of none threads = []
pending_of (some i) threads = pending (get_elem? threads i)

abbrev pub with_calls : List (SinkPtr × Call) → Manager → Manager
with_calls cs m = record m { memory = record m.memory { calls = m.memory.calls ++ cs } }

abbrev pub completed : System → Manager
completed s = with_calls (pending_of s.shared.sinks_mutex s.threads) s.shared.manager

-- The operations of a thread that have not taken place.
abbrev pub rest : Pc → List Op
rest (idle ops) = ops
rest (reading l c ci ops) = dump_op l c ci ∷ ops
rest (copying ci ops) = update_op ci ∷ ops
rest (replacing ci ops) = replace_op ci ∷ ops
rest (handing ops) = ops
rest (calling call ps ops) = ops
rest (clearing ops) = clear_op ∷ ops
rest (leaving ops) = ops

-- What one step makes of them, with the whole operation that takes place in it, if one does. A dump and
-- an update first read the global context info g.
pub data Turns (g : ContextInfo) : List Op → Option Event → List Op → Type 0 where
  stays : {ops : List Op} → Turns g ops none ops
  reads :
      {l : Log} {c : Channel} {ci : ContextInfo} {ops : List Op}
      → Turns g (dump_op l c ci ∷ ops) none (broadcast_op (dump_call l c ci g) ∷ ops)
  copies :
      {ci : ContextInfo} {ops : List Op}
      → Turns g (update_op ci ∷ ops) none (replace_op (update g ci) ∷ ops)
  calls :
      {call : Call} {ops : List Op} → Turns g (broadcast_op call ∷ ops) (some (call_event call)) ops
  clears : {ops : List Op} → Turns g (clear_op ∷ ops) (some clear_event) ops
  replaces :
      {ci : ContextInfo} {ops : List Op}
      → Turns g (replace_op ci ∷ ops) (some (replace_event ci)) ops

pub event_of : {i : ℕ} {s t : Shared} {p q : Pc} → Move i s p t q → Option Event
event_of (lock_sinks {call} e) = some (call_event call)
event_of do_clear = some clear_event
event_of (do_replace {ci}) = some (replace_event ci)
event_of _ = none

pub Move-Turns :
    {i : ℕ} {s t : Shared} {p q : Pc} (mv : Move i s p t q)
    → Turns s.manager.global_context_info (rest p) (event_of mv) (rest q)
unfolding event_of
Move-Turns (lock_read e) = stays
Move-Turns do_read = reads
Move-Turns (lock_copy e) = stays
Move-Turns do_copy = copies
Move-Turns (lock_replace e) = stays
Move-Turns do_replace = replaces
Move-Turns unlock_context = stays
Move-Turns (lock_sinks e) = calls
Move-Turns call_one = stays
Move-Turns unlock_called = stays
Move-Turns (lock_clear e) = stays
Move-Turns do_clear = clears
Move-Turns unlock_cleared = stays

abbrev pub perform_if : Option Event → Manager → Manager
perform_if none m = m
perform_if (some e) m = perform e m

true_not_false : true ≢ false
true_not_false e = cc

pub no_calls : (m : Manager) → with_calls [] m ≡ m
no_calls m =
    ap (λ cs. record m { memory = record m.memory { calls = cs } }) (append-nil m.memory.calls)

module _ (threads : List Pc) (i : ℕ) (p q : Pc) (at : get_elem? threads i ≡ some p) where
  own_pending : pending_of (some i) threads ≡ pending (some p)
  own_pending = ap pending at

  own_pending_after : pending_of (some i) (set threads i q) ≡ pending (some q)
  own_pending_after = ap pending (get_elem?-set_self threads i q (get_elem?-lt threads i p at))

  other_pending :
      (lock : Option ℕ)
      → Owned holds_sinks lock threads
      → holds_sinks p ≡ false
      → pending_of lock (set threads i q) ≡ pending_of lock threads
  other_pending none o h = refl
  other_pending (some j) o h = ap pending (
      get_elem?-set_ne threads q
        (λ e. absurd (true_not_false (sym ((o.known i p at).1 (ap some (sym e))) ∙ h))))

module _ (threads : List Pc) (i : ℕ) (s : Shared) (p q : Pc) (at : get_elem? threads i ≡ some p)
    (l : Owned holds_sinks s.sinks_mutex threads) where
  -- A step of a thread without the lock of the sinks, which stays as it is.
  elsewhere :
      (m : Manager)
      → holds_sinks p ≡ false
      → with_calls (pending_of s.sinks_mutex (set threads i q)) m
        ≡ with_calls (pending_of s.sinks_mutex threads) m
  elsewhere m h = ap (λ cs. with_calls cs m) (other_pending threads i p q at s.sinks_mutex l h)

  -- The thread with that lock, before and after its step.
  held : holds_sinks p ≡ true → pending (some p) ≡ pending_of s.sinks_mutex threads
  held h =
      sym (ap (λ k. pending_of k threads) ((l.known i p at).0 h) ∙ own_pending threads i p q at)

  held_after : holds_sinks p ≡ true → pending_of s.sinks_mutex (set threads i q) ≡ pending (some q)
  held_after h =
      ap (λ k. pending_of k (set threads i q)) ((l.known i p at).0 h)
      ∙ own_pending_after threads i p q at

  -- Nobody has the lock.
  free : s.sinks_mutex ≡ none → pending_of s.sinks_mutex threads ≡ []
  free e = ap (λ k. pending_of k threads) e

-- A step is one whole operation on the completed manager, or nothing.
pub Move-completed :
    (threads : List Pc) (i : ℕ) {s t : Shared} {p q : Pc} (mv : Move i s p t q)
    → get_elem? threads i ≡ some p
    → Owned holds_sinks s.sinks_mutex threads
    → completed (record { shared = t; threads = set threads i q })
      ≡ perform_if (event_of mv) (completed (record { shared = s; threads = threads }))
unfolding event_of clear_sinks call_sinks replace_global_context_info
Move-completed threads i {s} {t} {p} {q} (lock_read e) at l =
    elsewhere threads i s p q at l s.manager refl
Move-completed threads i {s} {t} {p} {q} do_read at l =
    elsewhere threads i s p q at l s.manager refl
Move-completed threads i {s} {t} {p} {q} (lock_copy e) at l =
    elsewhere threads i s p q at l s.manager refl
Move-completed threads i {s} {t} {p} {q} do_copy at l =
    elsewhere threads i s p q at l s.manager refl
Move-completed threads i {s} {t} {p} {q} (lock_replace e) at l =
    elsewhere threads i s p q at l s.manager refl
Move-completed threads i {s} {t} {p} {q} do_replace at l =
    elsewhere threads i s p q at l t.manager refl
Move-completed threads i {s} {t} {p} {q} unlock_context at l =
    elsewhere threads i s p q at l s.manager refl
Move-completed threads i {s} {t} {p} {q} (lock_sinks {call} e) at l =
    ap (λ cs. with_calls cs s.manager) (own_pending_after threads i p q at)
    ∙ ap (call_sinks call) (
        sym (ap (λ cs. with_calls cs s.manager) (free threads i s p q at l e) ∙ no_calls s.manager))
Move-completed threads i {s} {t} {p} {q} (call_one {call} {p = r} {ps}) at l =
    ap (λ cs. with_calls cs t.manager) (held_after threads i s p q at l refl)
    ∙ ap (λ cs. record s.manager { memory = record s.manager.memory { calls = cs } })
        (append_assoc s.manager.memory.calls ((r, call) ∷ []) (map (λ x. (x, call)) ps))
    ∙ ap (λ cs. with_calls cs s.manager) (held threads i s p q at l refl)
Move-completed threads i {s} {t} {p} {q} unlock_called at l =
    ap (λ cs. with_calls cs s.manager) (held threads i s p q at l refl)
Move-completed threads i {s} {t} {p} {q} (lock_clear e) at l =
    ap (λ cs. with_calls cs s.manager)
      (own_pending_after threads i p q at ∙ sym (free threads i s p q at l e))
Move-completed threads i {s} {t} {p} {q} do_clear at l =
    ap (λ cs. with_calls cs t.manager)
      (held_after threads i s p q at l refl ∙ held threads i s p q at l refl)
Move-completed threads i {s} {t} {p} {q} unlock_cleared at l =
    ap (λ cs. with_calls cs s.manager) (held threads i s p q at l refl)
