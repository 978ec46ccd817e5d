-- ===== src/Logger/Writing.antt =====
-- What a logging statement comes to: which calls it makes on which sinks.
use octo_logger_cpp.Prelude.{
  ℕ, ◌≡◌, ◌≢◌, ◌↔◌, refl, ap, ◌∙◌, sym, Bool, true, false, Option, none, some, List, [], ◌∷◌, ◌++◌,
  map, append-nil, append_assoc, if◌then◌else◌, Bool-cases, inl, inr, arith,
}
use octo_logger_cpp.Prelude.Text.{Text, text_Eq, codes}
use octo_logger_cpp.Prelude.Map.{find}
use octo_logger_cpp.Prelude.Result.{ok, throw, runtime_error, Exception}
use octo_logger_cpp.Level.{LogLevel}
use octo_logger_cpp.Context.{ContextInfo}
use octo_logger_cpp.Channel.{Channel, Heap, Logger, Log, deref}
use octo_logger_cpp.Manager.{
  Manager, SinkPtr, Call, dump_call, dump, call_sinks, terminate, clear_channels, clear_sinks,
  mute_channel,
}
use octo_logger_cpp.Manager.Levels.{mute_channel_lem}
use octo_logger_cpp.Manager.Sinks.{terminate_lem}
use octo_logger_cpp.Logger.{
  Process, managed, memory_of, instance_of, is_enabled, make_log, log, insert, insert_all,
  append_to, dump_log, destroy, write, write_log,
}

abbrev pub concat : List Text → Text
concat [] = []
concat (v ∷ vs) = v ++ concat vs

abbrev streamed : List Text → Option Text → Option Text
streamed vs none = none
streamed vs (some s) = some (s ++ concat vs)

streamed-append :
    (v : Text) (vs : List Text) (o : Option Text)
    → streamed vs (append_to o v) ≡ streamed (v ∷ vs) o
streamed-append v vs none = refl
streamed-append v vs (some s) = ap some (append_assoc s v (concat vs))

streamed_nil : (o : Option Text) → streamed [] o ≡ o
streamed_nil none = refl
streamed_nil (some s) = ap some (append-nil s)

insert_all_lem :
    (vs : List Text) (l : Log) → insert_all vs l ≡ record l { stream = streamed vs l.stream }
unfolding insert_all insert
insert_all_lem [] l = ap (λ o. record l { stream = o }) (sym (streamed_nil l.stream))
insert_all_lem (v ∷ vs) l =
    insert_all_lem vs (insert v l)
    ∙ ap (λ o. record l { stream = o }) (streamed-append v vs l.stream)

abbrev pub is_named : LogLevel → Bool
is_named (LogLevel.unnamed n) = false
is_named l = true

-- The log as the sinks get it.
abbrev pub finished : ℕ → LogLevel → Text → ContextInfo → List Text → Log
finished now level id ci values = record {
  stream = some (concat values);
  log_level = level;
  time_created = now;
  extra_identifier = id;
  log_context_info = ci;
}

-- The manager after the calls on the sinks have been made.
abbrev pub with_calls : List (SinkPtr × Call) → Manager → Manager
with_calls cs m = record m { memory = record m.memory { calls = m.memory.calls ++ cs } }

no_calls : (m : Manager) → with_calls [] m ≡ m
no_calls m =
    ap (λ cs. record m { memory = record m.memory { calls = cs } }) (append-nil m.memory.calls)

log_named :
    (level : LogLevel) (id : Text) (ci : ContextInfo) (logger : Logger) (heap : Heap)
    → is_named level ≡ true
    → log level id ci logger heap ≡ ok (make_log level id ci logger heap)
unfolding log
log_named (LogLevel.unnamed n) id ci logger heap h = cc
log_named LogLevel.trace id ci logger heap h = refl
log_named _ id ci logger heap h = refl

log_unnamed :
    (level : LogLevel) (id : Text) (ci : ContextInfo) (logger : Logger) (values : List Text)
    (p : Process) (now : ℕ)
    → is_named level ≡ false
    → write now level id ci values logger p ≡ throw (runtime_error (codes "No log level"))
unfolding log write
log_unnamed (LogLevel.unnamed n) id ci logger values p now h = refl
log_unnamed LogLevel.trace id ci logger values p now h = cc
log_unnamed _ id ci logger values p now h = cc

abbrev made_log : LogLevel → Text → ContextInfo → Bool → Log
made_log level id ci b = record {
  stream = if b then some [] else none;
  log_level = level;
  time_created = 0;
  extra_identifier = id;
  log_context_info = ci;
}

-- With the log that the constructor makes on a channel that is in memory.
write_made :
    (now : ℕ) (level : LogLevel) (id : Text) (ci : ContextInfo) (values : List Text)
    (logger : Logger) (p : Process) (c : Channel)
    → is_named level ≡ true
    → deref logger.channel_view (memory_of p).channel_heap ≡ some c
    → write now level id ci values logger p
      ≡ ok (
          destroy now logger
            (insert_all values (made_log level id ci (is_enabled level c.channel_level)))
            p)
unfolding write make_log
write_made now level id ci values logger p c h d =
    rw (log_named level id ci logger (memory_of p).channel_heap h, make_log, d) refl

destroyed :
    (now : ℕ) (level : LogLevel) (id : Text) (ci : ContextInfo) (values : List Text)
    (logger : Logger) (b : Bool) (p : Process) (c : Channel)
    → deref logger.channel_view (instance_of p).memory.channel_heap ≡ some c
    → destroy now logger (insert_all values (made_log level id ci b)) p
      ≡ some (
          if b
          then managed
              (dump (finished now level id ci values) c logger.context_info (instance_of p))
          else p)
unfolding destroy dump_log
destroyed now level id ci values logger true p c d =
    rw (insert_all_lem values (made_log level id ci true), dump_log, d) refl
destroyed now level id ci values logger false p c d =
    rw (insert_all_lem values (made_log level id ci false)) refl

-- A statement on a level that has a name, through a logger whose channel is in memory, makes one call on
-- each sink, in their order, if the level is not below the channel's and is not Quiet, and none
-- otherwise; the call has all that was streamed in one text, the channel as it is, and the
-- context infos of the log, of the logger and of the manager. Nothing else changes.
pub write_lem :
    (now : ℕ) (level : LogLevel) (id : Text) (ci : ContextInfo) (values : List Text)
    (logger : Logger) (m : Manager) (c : Channel)
    → is_named level ≡ true
    → deref logger.channel_view m.memory.channel_heap ≡ some c
    → write now level id ci values logger (managed m)
      ≡ ok (
          some (
            managed (
              with_calls
                (if is_enabled level c.channel_level
                  then map
                      (λ s. (
                        s,
                        dump_call
                            (finished now level id ci values)
                            c
                            logger.context_info
                            m.global_context_info,
                      ))
                      m.sinks
                  else [])
                m)))
unfolding dump call_sinks instance_of memory_of
write_lem now level id ci values logger m c h d =
    write_made now level id ci values logger (managed m) c h d
    ∙ ap ok
        (destroyed now level id ci values logger (is_enabled level c.channel_level) (managed m) c d)
    ∙ elim (Bool-cases (is_enabled level c.channel_level)) [
      | inl y ↦ rw y refl
      | inr n ↦ rw (n, no_calls m) refl
    ]

write_log_ok :
    (now : ℕ) (logger : Logger) (values : List Text) (p : Process) (o : Option Log) (x : Exception)
    → write_log now logger values p (ok o) ≢ throw x
write_log_ok now logger values p none x = λ e. cc
write_log_ok now logger values p (some l) x = λ e. cc

-- Logger::log throws just for a value of the enumeration's type that is none of the levels.
pub write_throws_iff :
    (now : ℕ) (level : LogLevel) (id : Text) (ci : ContextInfo) (values : List Text)
    (logger : Logger) (p : Process)
    → (write now level id ci values logger p ≡ throw (runtime_error (codes "No log level")))
      ↔ (is_named level ≡ false)
unfolding write
write_throws_iff now level id ci values logger p = elim (Bool-cases (is_named level)) [
  | inl y ↦ (
    (λ e. absurd (
        write_log_ok now logger values p (make_log level id ci logger (memory_of p).channel_heap)
          (runtime_error (codes "No log level"))
          (rw (log_named level id ci logger (memory_of p).channel_heap y) at e))),
    (λ f. ground (arith, y, f)),
  )
  | inr n ↦ ((λ _. n), (λ _. log_unnamed level id ci logger values p now n))
]

quiet_disables :
    (level : LogLevel) → is_named level ≡ true → is_enabled level LogLevel.quiet ≡ false
quiet_disables (LogLevel.unnamed n) h = cc
quiet_disables LogLevel.trace h = refl
quiet_disables _ h = refl

-- After mute_channel of a registered name, no logging statement on a level that has a name, by a logger on
-- that channel, makes a call on a sink or changes anything.
pub muted_silent :
    (now : ℕ) (level : LogLevel) (id : Text) (ci : ContextInfo) (values : List Text)
    (logger : Logger) (m : Manager) (name : Text) (c : Channel)
    → is_named level ≡ true
    → find name m.channels ≡ some logger.channel_view
    → deref logger.channel_view m.memory.channel_heap ≡ some c
    → write now level id ci values logger (managed (mute_channel name m).1)
      ≡ ok (some (managed (mute_channel name m).1))
muted_silent now level id ci values logger m name c h f d =
    let quiet : Channel = record c { channel_level = LogLevel.quiet } in
    let n = (mute_channel name m).1 in
    let q : deref logger.channel_view n.memory.channel_heap ≡ some quiet =
      (mute_channel_lem m name).1 logger.channel_view ∙ (rw (f, d) (ground arith)) in
    write_lem now level id ci values logger n quiet h q
    ∙ (rw (quiet_disables level h, no_calls n) refl)

-- After terminate a logging statement on a level that has a name, by a logger whose channel is in
-- memory, makes no call on a sink and changes nothing.
pub terminated_silent :
    (now : ℕ) (level : LogLevel) (id : Text) (ci : ContextInfo) (values : List Text)
    (logger : Logger) (m : Manager) (c : Channel)
    → is_named level ≡ true
    → deref logger.channel_view m.memory.channel_heap ≡ some c
    → write now level id ci values logger (managed (terminate m))
      ≡ ok (some (managed (terminate m)))
unfolding terminate clear_channels clear_sinks
terminated_silent now level id ci values logger m c h d =
    let (_, _, s, _, k, _) = terminate_lem m in
    write_lem now level id ci values logger (terminate m) c h (rw k d)
    ∙ elim (Bool-cases (is_enabled level c.channel_level)) [
      | inl y ↦ rw (y, s, no_calls (terminate m)) refl
      | inr n ↦ rw (n, no_calls (terminate m)) refl
    ]
