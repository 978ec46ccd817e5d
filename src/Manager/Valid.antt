-- ===== src/Manager/Valid.antt =====
-- What holds of the manager in every state that its operations lead to.
pub mod Preserved
pub mod Reached
use octo_logger_cpp.Prelude.{
  ℕ, ◌<◌, ◌≡◌, ◌∙◌, sym, subst, Bool, true, false, none, some, List, [], ◌∷◌, ◌++◌, length,
  get_elem?, Option-cases, Bool-cases, inl, inr, ◌⊎◌, ◌==◌, if◌then◌else◌, get_elem?-lt,
  get_elem?-append, get_elem?-append_last, length-append, arith, All, All-append,
}
use octo_logger_cpp.Prelude.Text.{Text, text_Eq, text_eq_iff}
use octo_logger_cpp.Prelude.Map.{Map, find, insert_or_assign, find-insert_or_assign}
use octo_logger_cpp.Prelude.Keys.{IsMap, insert_or_assign-IsMap}
use octo_logger_cpp.Prelude.Int.{ℤ}
use octo_logger_cpp.Level.{LogLevel, value}
use octo_logger_cpp.Config.SinkConfig.{SinkConfig}
use octo_logger_cpp.Context.{ContextInfo, update}
use octo_logger_cpp.Config.ManagerConfig.{
  ManagerConfig, has_option, option_int, default_channel_level,
}
use octo_logger_cpp.Channel.{Channel, ChannelPtr, Heap, StringView, c_string}
use octo_logger_cpp.Channel
use octo_logger_cpp.Manager.{
  Manager, Memory, with_heap, new_manager, create_channel, emplace, mute_channel, set_log_level,
  configure, create_sinks, create_one, creates, apply_default, set_all, terminate, stop, call_sinks,
  restart_sinks, clear_sinks, clear_channels, dump, replace_global_context_info,
  update_global_context_info, child_on_fork, configured_level, Call, stop_call, dump_call,
  restart_call,
}
use octo_logger_cpp.Manager.Steps.{Step, Reachable, made, after, SinksKnown}
use octo_logger_cpp.Manager.Steps
use octo_logger_cpp.Manager.Writes.{
  names, length-names, names-append, names-set_log_level, names-set_all,
}

module _ (Name : StringView → Type 0) where
  -- The channel at the address has the name of a view that satisfies `Name`, and the key is the C string there.
  abbrev pub IsNamed : Heap → Text → ChannelPtr → Type 0
  IsNamed heap k p =
      (n : StringView) × Name n × (get_elem? (names heap) p ≡ some n.bytes) × (k ≡ c_string n)

  -- The registered channels are in memory, each under its own name and no two names for one channel,
  -- and the sinks are in memory.
  pub record Valid (m : Manager) : Type 0 where
    pub one_entry : IsMap m.channels
    pub named :
        (k : Text) (p : ChannelPtr) → find k m.channels ≡ some p → IsNamed m.memory.channel_heap k p
    pub distinct :
        (j k : Text) (p : ChannelPtr)
        → find j m.channels ≡ some p
        → find k m.channels ≡ some p
        → j ≡ k
    pub known : SinksKnown m.sinks m

  named-lt :
      (m : Manager)
      → Valid m
      → (k : Text) (p : ChannelPtr) → find k m.channels ≡ some p
      → p < length m.memory.channel_heap
  named-lt m v k p e =
      let (n, _, g, _) = v.named k p e in
      omega (
        arith,
        get_elem?-lt (names m.memory.channel_heap) p n.bytes g,
        length-names m.memory.channel_heap,
      )

  -- A memory with the same names of channels will do as well.
  pub renamed :
      (m : Manager) (heap : Heap)
      → names heap ≡ names m.memory.channel_heap
      → Valid m
      → Valid (with_heap heap m)
  renamed m heap e v = record {
    one_entry = v.one_entry;
    named = λ k p f.
        subst
          (λ (ns : List Text).
            (n : StringView) × Name n × (get_elem? ns p ≡ some n.bytes) × (k ≡ c_string n))
          (sym e) (v.named k p f);
    distinct = v.distinct;
    known = v.known;
  }

  pub no_channels : (m : Manager) → Valid m → Valid (record m { channels = [] })
  unfolding find
  no_channels m v = record {
    one_entry = tt;
    named = λ k p e. cc;
    distinct = λ j k p e f. cc;
    known = v.known;
  }

  -- A channel is added under a name that has none.
  module _ (m : Manager) (name : StringView) (ok : Name name) (v : Valid m) where
    abbrev added : Map Text ChannelPtr
    added = insert_or_assign (c_string name) (length m.memory.channel_heap) m.channels

    old :
        (k : Text) (p : ChannelPtr)
        → find k added ≡ some p
        → ((k ≡ c_string name) × (p ≡ length m.memory.channel_heap)) ⊎ (find k m.channels ≡ some p)
    old k p e = ground (
      arith,
      find-insert_or_assign (c_string name) k (length m.memory.channel_heap) m.channels,
      text_eq_iff (c_string name) k,
    )

    IsNamed-now :
        (l : LogLevel) (k : Text) (p : ChannelPtr)
        → find k added ≡ some p
        → IsNamed
            (m.memory.channel_heap ++ record { channel_name = name.bytes; channel_level = l } ∷ [])
            k
            p
    IsNamed-now l k p e = elim (old k p e) [
      | inl (ek, ep) ↦ (
        name,
        ok,
        rw (ep, names-append, ← length-names m.memory.channel_heap)
            (get_elem?-append_last (names m.memory.channel_heap) name.bytes),
        ek,
      )
      | inr f ↦
          let (n, okn, g, c) = v.named k p f in
          (
            n,
            okn,
            rw
                (
                  names-append,
                  get_elem?-append (names m.memory.channel_heap) (name.bytes ∷ []) p
                      (get_elem?-lt (names m.memory.channel_heap) p n.bytes g),
                )
                g,
            c,
          )
    ]

    distinct_now :
        (j k : Text) (p : ChannelPtr) → find j added ≡ some p → find k added ≡ some p → j ≡ k
    distinct_now j k p e f = elim (old j p e) [
      | inl (ej, ep) ↦ elim (old k p f) [
        | inl (ek, _) ↦ ej ∙ sym ek
        | inr g ↦ absurd (omega (arith, named-lt m v k p g, ep))
      ]
      | inr d ↦ elim (old k p f) [
        | inl (_, ep) ↦ absurd (omega (arith, named-lt m v j p d, ep))
        | inr g ↦ v.distinct j k p d g
      ]
    ]

    added-Valid : Valid (emplace name none m).1
    added-Valid = record {
      one_entry =
          insert_or_assign-IsMap (c_string name) (length m.memory.channel_heap) m.channels
            v.one_entry;
      named = IsNamed-now m.default_log_level;
      distinct = distinct_now;
      known = v.known;
    }

  pub create_channel-Valid :
      (m : Manager) (name : StringView) → Name name → Valid m → Valid (create_channel name m).1
  unfolding create_channel
  create_channel-Valid m name ok v = elim (Option-cases (find (c_string name) m.channels)) [
    | inl e ↦ rw e (added-Valid m name ok v)
    | inr (p, e) ↦ rw e v
  ]

  pub apply_default-Valid : (m : Manager) → Valid m → Valid (apply_default m)
  unfolding apply_default
  apply_default-Valid m v =
      renamed m (set_all m.default_log_level m.channels m.memory.channel_heap)
        (names-set_all m.default_log_level m.channels m.memory.channel_heap) v
