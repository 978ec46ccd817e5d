-- ===== src/Manager/Sharing.antt =====
-- update_global_context_info by two threads at once. A thread reads the context info under the lock,
-- updates its copy, and writes it under the lock; between the two steps the other thread may run.
use octo_logger_cpp.Prelude.{◌≡◌, ◌⊎◌, inl, inr, refl, subst, List, [], ◌∷◌, Bool, true, false}
use octo_logger_cpp.Context.{ContextInfo, update}
use octo_logger_cpp.Manager.{Manager, replace_global_context_info, update_global_context_info}

-- A thread in a call of update_global_context_info: before its read, with what it has read, and after
-- its write.
pub data Thread : Type 0 where
  starting : Thread
  holding : ContextInfo → Thread
  finished : Thread

-- Two threads and the manager. The first updates by x, the second by y.
pub record Both : Type 0 where
  pub first : Thread
  pub second : Thread
  pub manager : Manager

-- The next step of a thread that updates by ci.
abbrev pub advance : ContextInfo → Thread → Manager → Thread × Manager
advance ci starting m = (holding m.global_context_info, m)
advance ci (holding seen) m = (finished, replace_global_context_info (update seen ci) m)
advance ci finished m = (finished, m)

abbrev pub step : ContextInfo → ContextInfo → Bool → Both → Both
step x y true s =
    let r = advance x s.first s.manager in record { first = r.0; second = s.second; manager = r.1 }
step x y false s =
    let r = advance y s.second s.manager in record { first = s.first; second = r.0; manager = r.1 }

-- A schedule says which thread takes each step: the first at `true`.
unfoldable pub run : ContextInfo → ContextInfo → List Bool → Both → Both
run x y [] s = s
run x y (b ∷ schedule) s = run x y schedule (step x y b s)

module _ (x y : ContextInfo) (m : Manager) where
  abbrev by_first : Manager
  by_first = replace_global_context_info (update m.global_context_info x) m

  abbrev by_second : Manager
  by_second = replace_global_context_info (update m.global_context_info y) m

  -- What is known of the threads and the manager at each point.
  abbrev Along : Thread → Thread → Manager → Type 0
  Along starting starting n = n ≡ m
  Along (holding s) starting n = (s ≡ m.global_context_info) × (n ≡ m)
  Along starting (holding t) n = (t ≡ m.global_context_info) × (n ≡ m)
  Along (holding s) (holding t) n =
      (s ≡ m.global_context_info) × (t ≡ m.global_context_info) × (n ≡ m)
  Along finished starting n = n ≡ by_first
  Along starting finished n = n ≡ by_second
  Along finished (holding t) n =
      (n ≡ by_first) × ((t ≡ m.global_context_info) ⊎ (t ≡ by_first.global_context_info))
  Along (holding s) finished n =
      (n ≡ by_second) × ((s ≡ m.global_context_info) ⊎ (s ≡ by_second.global_context_info))
  Along finished finished n =
      ((n ≡ replace_global_context_info (update by_first.global_context_info y) by_first)
        ⊎ (n ≡ replace_global_context_info (update by_second.global_context_info x) by_second))
      ⊎ ((n ≡ by_first) ⊎ (n ≡ by_second))

  advance_first :
      (a b : Thread) (n : Manager) → Along a b n → Along (advance x a n).0 b (advance x a n).1
  unfolding replace_global_context_info
  advance_first starting starting n h = rw h (refl, refl)
  advance_first starting (holding t) n (e, h) = rw h (refl, e, refl)
  advance_first starting finished n h = rw h (refl, inr refl)
  advance_first (holding s) starting n (e, h) = rw (e, h) refl
  advance_first (holding s) (holding t) n (e, f, h) = rw (e, h) (refl, inl f)
  advance_first (holding s) finished n (h, inl e) = rw (e, h) (inr (inl refl))
  advance_first (holding s) finished n (h, inr e) = rw (e, h) (inl (inr refl))
  advance_first finished starting n h = h
  advance_first finished (holding t) n h = h
  advance_first finished finished n h = h

  advance_second :
      (a b : Thread) (n : Manager) → Along a b n → Along a (advance y b n).0 (advance y b n).1
  unfolding replace_global_context_info
  advance_second starting starting n h = rw h (refl, refl)
  advance_second (holding s) starting n (e, h) = rw h (e, refl, refl)
  advance_second finished starting n h = rw h (refl, inr refl)
  advance_second starting (holding t) n (e, h) = rw (e, h) refl
  advance_second (holding s) (holding t) n (e, f, h) = rw (f, h) (refl, inl e)
  advance_second finished (holding t) n (h, inl e) = rw (e, h) (inr (inr refl))
  advance_second finished (holding t) n (h, inr e) = rw (e, h) (inl (inl refl))
  advance_second starting finished n h = h
  advance_second (holding s) finished n h = h
  advance_second finished finished n h = h

  Along-run :
      (schedule : List Bool) (s : Both)
      → Along s.first s.second s.manager
      → let t = run x y schedule s in Along t.first t.second t.manager
  unfolding run
  Along-run [] s h = h
  Along-run (true ∷ schedule) s h =
      Along-run schedule (step x y true s) (advance_first s.first s.second s.manager h)
  Along-run (false ∷ schedule) s h =
      Along-run schedule (step x y false s) (advance_second s.first s.second s.manager h)

-- Two calls of update_global_context_info that run at once in any order of their steps, both to the end,
-- leave the manager as one call after the other would, in one of the two orders, or as one of
-- the calls alone would: at most one of them is lost, and nothing else comes of it.
pub run_lem :
    (x y : ContextInfo) (m n : Manager) (schedule : List Bool)
    → run x y schedule (record { first = starting; second = starting; manager = m })
      ≡ record { first = finished; second = finished; manager = n }
    → ((n ≡ update_global_context_info y (update_global_context_info x m))
        ⊎ (n ≡ update_global_context_info x (update_global_context_info y m)))
      ⊎ ((n ≡ update_global_context_info x m) ⊎ (n ≡ update_global_context_info y m))
unfolding update_global_context_info
run_lem x y m n schedule h =
    subst (λ (s : Both). Along x y m s.first s.second s.manager) h
      (Along-run x y m schedule (record { first = starting; second = starting; manager = m }) refl)
