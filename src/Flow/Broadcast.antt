-- ===== src/Flow/Broadcast.antt =====
-- A call that src/manager.cpp makes on all of its sinks is one call on each, and a logging statement is one
-- dump.
use octo_logger_cpp.Prelude.{
  ◌≡◌, ℕ, refl, ap, ◌∙◌, true, false, Option, none, some, List, [], ◌∷◌, ◌++◌, map, drop-append,
  All, ◌>>=◌, ◌==◌, ==_iff, if◌then◌else◌, Bool-cases, inl, inr,
}
use octo_logger_cpp.Prelude.Text.{Text}
use octo_logger_cpp.Level.{LogLevel}
use octo_logger_cpp.Context.{ContextInfo}
use octo_logger_cpp.Channel.{Channel, Logger, deref}
use octo_logger_cpp.Manager.{SinkPtr, Call, dump_call, Manager}
use octo_logger_cpp.Logger.{managed, is_enabled, write}
use octo_logger_cpp.Logger.Writing.{is_named, finished, write_lem}
use octo_logger_cpp.Flow.{SinkClass, carry_out, carry_out_all, calls_since}

-- None of the addresses is p.
abbrev pub IsOther : SinkPtr → SinkPtr → Type 0
IsOther p q = (q == p) ≡ false

-- p is registered once.
abbrev pub Registered : SinkPtr → List SinkPtr → Type 0
Registered p sinks =
    (before : List SinkPtr) × (after : List SinkPtr) × (sinks ≡ before ++ p ∷ after)
    × All (IsOther p) before
    × All (IsOther p) after

module _ (K : SinkClass) (p : SinkPtr) (call : Call) where
  others :
      (sinks : List SinkPtr) (s : K.Object)
      → All (IsOther p) sinks
      → carry_out_all K p (map (λ q. (q, call)) sinks) s ≡ some s
  unfolding carry_out_all
  others [] s h = refl
  others (q ∷ sinks) s h = rw (h.0, others sinks s h.1)

  bind_some :
      (made : Option K.Object) (f : K.Object → Option K.Object)
      → ((s : K.Object) → f s ≡ some s)
      → (made >>= f) ≡ made
  bind_some none f h = refl
  bind_some (some s) f h = h s

  one_call :
      (before after : List SinkPtr) (s : K.Object)
      → All (IsOther p) before
      → All (IsOther p) after
      → carry_out_all K p (map (λ q. (q, call)) (before ++ p ∷ after)) s ≡ carry_out K call s
  unfolding carry_out_all
  one_call [] after s b a =
      rw ((==_iff p p).1 refl) (bind_some (carry_out K call s) _ (λ t. others after t a))
  one_call (q ∷ before) after s b a = rw (b.0, one_call before after s b.1 a)

  -- A call on all sinks is one call on each that is registered once.
  pub Registered-carry_out :
      (sinks : List SinkPtr) (s : K.Object)
      → Registered p sinks
      → carry_out_all K p (map (λ q. (q, call)) sinks) s ≡ carry_out K call s
  Registered-carry_out sinks s (before, after, e, b, a) =
      ap (λ l. carry_out_all K p (map (λ q. (q, call)) l) s) e ∙ one_call before after s b a

-- A logging statement, on a level that has a name, by a logger whose channel is in memory: of every sink
-- that is registered once, whatever its class, one dump is called, with all that was streamed and the three
-- context infos, if the level is enabled, and nothing is called if not.
pub write-on_dump :
    (K : SinkClass) (now : ℕ) (level : LogLevel) (id : Text) (ci : ContextInfo) (values : List Text)
    (logger : Logger) (m : Manager) (c : Channel) (p : SinkPtr) (s : K.Object)
    → is_named level ≡ true
    → deref logger.channel_view m.memory.channel_heap ≡ some c
    → Registered p m.sinks
    → carry_out_all K p (calls_since m (write now level id ci values logger (managed m))) s ≡ (
        if is_enabled level c.channel_level
        then K.on_dump
            (finished now level id ci values)
            c
            logger.context_info
            m.global_context_info
            s
        else some s)
unfolding carry_out_all
write-on_dump K now level id ci values logger m c p s n d r =
    let log = finished now level id ci values in
    let call = dump_call log c logger.context_info m.global_context_info in
    elim (Bool-cases (is_enabled level c.channel_level)) [
      | inl y ↦
          rw
            (
              write_lem now level id ci values logger m c n d,
              y,
              drop-append m.memory.calls (map (λ q. (q, call)) m.sinks),
            )
            (Registered-carry_out K p call m.sinks s r)
      | inr e ↦
          rw (write_lem now level id ci values logger m c n d, e, drop-append m.memory.calls [])
            refl
    ]
