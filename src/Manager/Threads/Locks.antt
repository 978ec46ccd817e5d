-- ===== src/Manager/Threads/Locks.antt =====
-- Each lock of src/manager.cpp is held by the thread that it is recorded for, and by no other.
use octo_logger_cpp.Prelude.{
  ◌≡◌, ◌≢◌, ◌↔◌, ◌<◌, ℕ, zero, suc, refl, sym, ◌∙◌, subst, ◌⊎◌, inl, inr, Bool, true, false, Option,
  none, some, List, [], ◌∷◌, length, get_elem?, set, ==_iff, ◌==◌, Bool-cases, some_inj, length-set,
  get_elem?-set_self, get_elem?-set_ne, get_elem?-lt,
}
use octo_logger_cpp.Manager.{Manager}
use octo_logger_cpp.Manager.Threads.{
  Op, Pc, reading, copying, replacing, handing, calling, clearing, leaving, Shared, Move, lock_read,
  do_read, lock_copy, do_copy, lock_replace, do_replace, unlock_context, lock_sinks, call_one,
  unlock_called, lock_clear, do_clear, unlock_cleared, System, Step, pick, Run, begun, later,
  starts, start,
}

abbrev pub holds_context : Pc → Bool
holds_context (reading l c ci ops) = true
holds_context (copying ci ops) = true
holds_context (replacing ci ops) = true
holds_context (handing ops) = true
holds_context _ = false

abbrev pub holds_sinks : Pc → Bool
holds_sinks (calling call ps ops) = true
holds_sinks (clearing ops) = true
holds_sinks (leaving ops) = true
holds_sinks _ = false

-- What a step of the thread i does to a lock, and to whether the thread holds it.
pub data Turn (i : ℕ) : Option ℕ → Bool → Option ℕ → Bool → Type 0 where
  kept : {lock : Option ℕ} {h : Bool} → Turn i lock h lock h
  taken : Turn i none false (some i) true
  given_back : {lock : Option ℕ} → Turn i lock true none false

-- Threads hold the lock just as it says.
pub record Owned (holds : Pc → Bool) (lock : Option ℕ) (threads : List Pc) : Type 0 where
  pub known : (i : ℕ) (p : Pc) → get_elem? threads i ≡ some p → (holds p ≡ true) ↔ (lock ≡ some i)
  pub alive : (i : ℕ) → lock ≡ some i → i < length threads

pub not_same : (i j : ℕ) → (i == j) ≡ false → i ≢ j
not_same i j n e = let y : (i == j) ≡ true = (==_iff i j).1 e in cc

module _ (holds : Pc → Bool) (threads : List Pc) (i : ℕ) (p q : Pc)
    (at : get_elem? threads i ≡ some p) where
  pub at_set :
      (j : ℕ) (r : Pc)
      → get_elem? (set threads i q) j ≡ some r
      → ((j ≡ i) × (r ≡ q)) ⊎ ((i ≢ j) × (get_elem? threads j ≡ some r))
  at_set j r g = elim (Bool-cases (i == j)) [
    | inl y ↦
        let ij : i ≡ j = (==_iff i j).0 y in
        let here : get_elem? (set threads i q) i ≡ some q =
          get_elem?-set_self threads i q (get_elem?-lt threads i p at) in
        inl (sym ij, some_inj (sym g ∙ subst (λ k. get_elem? (set threads i q) k ≡ some q) ij here))
    | inr n ↦ let ne = not_same i j n in inr (ne, sym (get_elem?-set_ne threads q ne) ∙ g)
  ]

  Owned-set :
      (lock lock' : Option ℕ)
      → ((holds q ≡ true) ↔ (lock' ≡ some i))
      → ((j : ℕ) → i ≢ j → (lock ≡ some j) ↔ (lock' ≡ some j))
      → Owned holds lock threads
      → Owned holds lock' (set threads i q)
  Owned-set lock lock' own others o = record {
    known = λ j r g. elim (at_set j r g) [
      | inl (e, f) ↦ rw (e, f) own
      | inr (ne, old) ↦
          let a = o.known j r old in let b = others j ne in (λ h. b.0 (a.0 h), λ h. a.1 (b.1 h))
    ];
    alive = λ j h. rw (length-set threads i q) (elim (Bool-cases (i == j)) [
      | inl y ↦ subst (λ k. k < length threads) ((==_iff i j).0 y) (get_elem?-lt threads i p at)
      | inr n ↦ o.alive j ((others j (not_same i j n)).1 h)
    ]);
  }

  Owned-Turn :
      (lock lock' : Option ℕ) (h h' : Bool)
      → Owned holds lock threads
      → Turn i lock h lock' h'
      → holds p ≡ h
      → holds q ≡ h'
      → Owned holds lock' (set threads i q)
  Owned-Turn lock lock' h h' o kept e f =
      let a = o.known i p at in
      Owned-set lock lock (λ y. a.0 (e ∙ sym f ∙ y), λ y. f ∙ sym e ∙ a.1 y)
        (λ j ne. (λ y. y, λ y. y)) o
  Owned-Turn lock lock' h h' o taken e f =
      Owned-set none (some i) (λ y. refl, λ y. f) (λ j ne. (λ y. cc, λ y. absurd (ne (some_inj y))))
        o
  Owned-Turn lock lock' h h' o given_back e f =
      Owned-set _ none (λ y. cc, λ y. cc)
        (λ j ne. (λ y. absurd (ne (some_inj (sym ((o.known i p at).0 e) ∙ y))), λ y. cc)) o

-- A step as a turn at each lock.
Move-context :
    {i : ℕ} {s t : Shared} {p q : Pc}
    → Move i s p t q
    → Turn i s.global_context_info_mutex
        (holds_context p)
        t.global_context_info_mutex
        (holds_context q)
Move-context (lock_read e) = rw e taken
Move-context do_read = kept
Move-context (lock_copy e) = rw e taken
Move-context do_copy = kept
Move-context (lock_replace e) = rw e taken
Move-context do_replace = kept
Move-context unlock_context = given_back
Move-context (lock_sinks e) = kept
Move-context call_one = kept
Move-context unlock_called = kept
Move-context (lock_clear e) = kept
Move-context do_clear = kept
Move-context unlock_cleared = kept

Move-sinks :
    {i : ℕ} {s t : Shared} {p q : Pc}
    → Move i s p t q
    → Turn i s.sinks_mutex (holds_sinks p) t.sinks_mutex (holds_sinks q)
Move-sinks (lock_read e) = kept
Move-sinks do_read = kept
Move-sinks (lock_copy e) = kept
Move-sinks do_copy = kept
Move-sinks (lock_replace e) = kept
Move-sinks do_replace = kept
Move-sinks unlock_context = kept
Move-sinks (lock_sinks e) = rw e taken
Move-sinks call_one = kept
Move-sinks unlock_called = given_back
Move-sinks (lock_clear e) = rw e taken
Move-sinks do_clear = kept
Move-sinks unlock_cleared = given_back

-- Both locks.
pub record Locked (s : System) : Type 0 where
  pub sinks : Owned holds_sinks s.shared.sinks_mutex s.threads
  pub context : Owned holds_context s.shared.global_context_info_mutex s.threads

pub Step-Locked : {s t : System} → Step s t → Locked s → Locked t
Step-Locked {s} (pick i p {m} {q} at mv) l = record {
  sinks = Owned-Turn holds_sinks s.threads i p q at _ _ _ _ l.sinks (Move-sinks mv) refl refl;
  context =
      Owned-Turn holds_context s.threads i p q at _ _ _ _ l.context (Move-context mv) refl refl;
}

pub Run-Locked : {s t : System} → Run s t → Locked s → Locked t
Run-Locked begun l = l
Run-Locked (later r st) l = Step-Locked st (Run-Locked r l)

starts_idle :
    (programs : List (List Op)) (i : ℕ) (p : Pc)
    → get_elem? (starts programs) i ≡ some p
    → (holds_sinks p ≡ false) × (holds_context p ≡ false)
starts_idle [] i p h = cc
starts_idle (ops ∷ rest) zero p h = rw (sym (some_inj h)) (refl, refl)
starts_idle (ops ∷ rest) (suc i) p h = starts_idle rest i p h

pub start-Locked : (m : Manager) (programs : List (List Op)) → Locked (start m programs)
start-Locked m programs = record {
  sinks = record {
    known = λ i p h. let f = (starts_idle programs i p h).0 in (λ y. cc, λ y. cc);
    alive = λ i h. cc;
  };
  context = record {
    known = λ i p h. let f = (starts_idle programs i p h).1 in (λ y. cc, λ y. cc);
    alive = λ i h. cc;
  };
}

-- In every state that the threads come to, no two of them hold the same lock.
pub mutual_exclusion :
    (m : Manager) (programs : List (List Op)) (s : System) (i j : ℕ) (p q : Pc)
    → Run (start m programs) s
    → get_elem? s.threads i ≡ some p
    → get_elem? s.threads j ≡ some q
    → ((holds_sinks p ≡ true) × (holds_sinks q ≡ true))
      ⊎ ((holds_context p ≡ true) × (holds_context q ≡ true))
    → i ≡ j
mutual_exclusion m programs s i j p q r a b (inl (x, y)) =
    let o = (Run-Locked r (start-Locked m programs)).sinks in
    some_inj (sym ((o.known i p a).0 x) ∙ (o.known j q b).0 y)
mutual_exclusion m programs s i j p q r a b (inr (x, y)) =
    let o = (Run-Locked r (start-Locked m programs)).context in
    some_inj (sym ((o.known i p a).0 x) ∙ (o.known j q b).0 y)
