-- ===== src/Manager/Valid/Preserved.antt =====
-- The operations that make sinks and set levels keep the invariant.
use octo_logger_cpp.Prelude.{
  ℕ, ◌<◌, Bool, true, false, List, [], ◌∷◌, ◌++◌, length, Option-cases, Bool-cases, inl, inr, ◌==◌,
  if◌then◌else◌, length-append, arith, All, All-append,
}
use octo_logger_cpp.Prelude.Text.{Text, text_Eq}
use octo_logger_cpp.Prelude.Map.{find}
use octo_logger_cpp.Prelude.Int.{ℤ}
use octo_logger_cpp.Level.{LogLevel, value}
use octo_logger_cpp.Config.SinkConfig.{SinkConfig}
use octo_logger_cpp.Config.ManagerConfig.{
  ManagerConfig, has_option, option_int, default_channel_level,
}
use octo_logger_cpp.Channel.{Channel, ChannelPtr, Heap, StringView, c_string}
use octo_logger_cpp.Channel
use octo_logger_cpp.Manager.{
  Manager, mute_channel, set_log_level, configure, create_sinks, create_one, creates, call_sinks,
  clear_sinks, configured_level, Call,
}
use octo_logger_cpp.Manager.Steps.{SinksKnown}
use octo_logger_cpp.Manager.Writes.{names-set_log_level}
use octo_logger_cpp.Manager.Valid.{Valid, renamed, apply_default-Valid}

module _ (Name : StringView → Type 0) where
  -- Sinks that are in memory stay there when more are made.
  more_known :
      (ss : List ℕ) (cs more : List SinkConfig)
      → All (λ p. p < length cs) ss
      → All (λ p. p < length (cs ++ more)) ss
  more_known [] cs more h = tt
  more_known (p ∷ ss) cs more h =
      (omega (arith, h.0, length-append cs more), more_known ss cs more h.1)

  pub with_sinks :
      (m : Manager) (ss : List ℕ)
      → Valid Name m
      → SinksKnown ss m
      → Valid Name (record m { sinks = ss })
  with_sinks m ss v k = record {
    one_entry = v.one_entry;
    named = v.named;
    distinct = v.distinct;
    known = k;
  }

  pub clear_sinks-Valid : (m : Manager) → Valid Name m → Valid Name (clear_sinks m)
  unfolding clear_sinks
  clear_sinks-Valid m v = record {
    one_entry = v.one_entry;
    named = v.named;
    distinct = v.distinct;
    known = tt;
  }

  pub custom-Valid :
      (m : Manager) (c : SinkConfig)
      → Valid Name m
      → Valid Name
          (record m { memory = record m.memory { sink_heap = m.memory.sink_heap ++ c ∷ [] } })
  custom-Valid m c v = record {
    one_entry = v.one_entry;
    named = v.named;
    distinct = v.distinct;
    known = more_known m.sinks m.memory.sink_heap (c ∷ []) v.known;
  }

  pub call_sinks-Valid : (c : Call) (m : Manager) → Valid Name m → Valid Name (call_sinks c m)
  unfolding call_sinks
  call_sinks-Valid c m v = record {
    one_entry = v.one_entry;
    named = v.named;
    distinct = v.distinct;
    known = v.known;
  }

  -- A sink is made and put at the end of the vector.
  one_more :
      (m : Manager) (c : SinkConfig)
      → Valid Name m
      → Valid Name (record m {
        sinks = m.sinks ++ length m.memory.sink_heap ∷ [];
        memory = record m.memory { sink_heap = m.memory.sink_heap ++ c ∷ [] };
      })
  one_more m c v = record {
    one_entry = v.one_entry;
    named = v.named;
    distinct = v.distinct;
    known =
        All-append (λ p. p < length (m.memory.sink_heap ++ c ∷ [])) m.sinks
          (length m.memory.sink_heap ∷ []) (more_known m.sinks m.memory.sink_heap (c ∷ []) v.known)
          (omega (arith, length-append m.memory.sink_heap (c ∷ [])), tt);
  }

  create_one-Valid :
      (b : Bool) (m : Manager) (c : SinkConfig) (ss : List ℕ)
      → Valid Name m
      → SinksKnown ss m
      → Valid Name (create_one b c m) × SinksKnown ss (create_one b c m)
  create_one-Valid false m c ss v k = (v, k)
  create_one-Valid true m c ss v k = (one_more m c v, more_known ss m.memory.sink_heap (c ∷ []) k)

  -- More sinks are made, and those that were known before still are.
  create_sinks-Valid :
      (cs : List SinkConfig) (m : Manager) (ss : List ℕ)
      → Valid Name m
      → SinksKnown ss m
      → Valid Name (create_sinks cs m) × SinksKnown ss (create_sinks cs m)
  unfolding create_sinks
  create_sinks-Valid [] m ss v k = (v, k)
  create_sinks-Valid (c ∷ cs) m ss v k =
      let r = create_one-Valid (creates c) m c ss v k in
      create_sinks-Valid cs (create_one (creates c) c m) ss r.0 r.1

  pub re_leveled :
      (m : Manager) (c : ManagerConfig) (l : LogLevel)
      → Valid Name m
      → Valid Name (record m { config = c; default_log_level = l })
  re_leveled m c l v = record {
    one_entry = v.one_entry;
    named = v.named;
    distinct = v.distinct;
    known = v.known;
  }

  pub configure-Valid :
      (m : Manager) (junk : ℤ) (c : ManagerConfig) (clear_old_sinks : Bool)
      → Valid Name m
      → SinksKnown c.custom_sinks m
      → Valid Name (configure junk c clear_old_sinks m)
  unfolding configure clear_sinks
  configure-Valid m junk c clear_old_sinks v k =
      let cleared : Manager = if clear_old_sinks then clear_sinks m else m in
      let cleared-Valid : Valid Name cleared × SinksKnown c.custom_sinks cleared =
        elim clear_old_sinks
          as (λ b.
            Valid Name (if b then clear_sinks m else m)
            × SinksKnown c.custom_sinks (if b then clear_sinks m else m)) [
              | true ↦ (clear_sinks-Valid m v, k)
              | false ↦ (v, k)
            ] in
      let level =
        if has_option default_channel_level c
        then configured_level junk (option_int default_channel_level c) cleared.default_log_level
        else cleared.default_log_level in
      let leveled : Manager = record cleared { config = c; default_log_level = level } in
      let r =
        create_sinks-Valid c.sink_configs leveled c.custom_sinks
          (re_leveled cleared c level cleared-Valid.0) cleared-Valid.1 in
      let created = create_sinks c.sink_configs leveled in
      apply_default-Valid Name (record created { sinks = created.sinks ++ c.custom_sinks })
        (with_sinks created (created.sinks ++ c.custom_sinks) r.0 (
          All-append (λ p. p < length created.memory.sink_heap) created.sinks c.custom_sinks
            r.0.known r.1))

  pub set_log_level-Valid :
      (m : Manager) (l : LogLevel) → Valid Name m → Valid Name (set_log_level l m)
  unfolding set_log_level
  set_log_level-Valid m l v = elim (Bool-cases (value l == value m.default_log_level)) [
    | inl y ↦ rw y v
    | inr n ↦
        rw n (
          apply_default-Valid Name (record m { default_log_level = l }) (re_leveled m m.config l v))
  ]

  pub mute_channel-Valid :
      (m : Manager) (name : Text) → Valid Name m → Valid Name (mute_channel name m).1
  unfolding mute_channel
  mute_channel-Valid m name v = elim (Option-cases (find name m.channels)) [
    | inl e ↦ rw e v
    | inr (p, e) ↦ rw e (
        renamed Name m (Channel.set_log_level LogLevel.quiet p m.memory.channel_heap)
          (names-set_log_level LogLevel.quiet p m.memory.channel_heap) v)
  ]
