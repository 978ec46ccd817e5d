-- ===== src/Manager/Levels.antt =====
-- Channels by name, and the levels that the manager gives them.
pub mod Configured
use octo_logger_cpp.Prelude.{
  ℕ, ◌%◌, ◌-◌, ◌≡◌, refl, ap, Bool, true, false, not, ◌&&◌, Option, none, some, List, [], ◌∷◌, ◌++◌,
  length, Option-cases, Bool-cases, inl, inr, ◌⊎◌, ◌==◌, ==_iff, if◌then◌else◌, arith, ◌∙◌,
}
use octo_logger_cpp.Prelude.Text.{Text, text_Eq, text_eq, text_eq_iff}
use octo_logger_cpp.Prelude.Map.{
  Map, find, insert_or_assign, find-insert_or_assign, contains-find, contains, erase, find-erase,
}
use octo_logger_cpp.Prelude.Int.{ℤ, pos, negsuc}
use octo_logger_cpp.Level.{LogLevel, value, of_value}
use octo_logger_cpp.Config.SinkConfig.{SinkConfig}
use octo_logger_cpp.Config.ManagerConfig.{
  ManagerConfig, logger_option_Eq, has_option, option, option_int, set_option, set_option_int,
  remove_option, default_channel_level,
}
use octo_logger_cpp.Prelude.Decimal.{IsInt, int_text, read_int-int_text}
use octo_logger_cpp.Channel.{Channel, ChannelPtr, Heap, deref, StringView, c_string}
use octo_logger_cpp.Manager.{
  Manager, with_heap, create_channel, emplace, mute_channel, set_log_level, configure,
  configured_level, level_of_int, create_sinks, create_one, creates, apply_default, clear_sinks,
  has_channel, set_all,
}
use octo_logger_cpp.Manager.Writes.{with_level, registers, deref-set_log_level, deref-set_all}

-- The channel made for a name that is new.
abbrev pub fresh : StringView → Manager → Channel
fresh name m = record { channel_name = name.bytes; channel_level = m.default_log_level }

-- The address that create_channel answers is then registered under the name, other names keep theirs,
-- and a second call answers it again and changes nothing. If the name had an address nothing changes,
-- else a channel with the name and the default level is added to those in memory.
pub create_channel_lem :
    (m : Manager) (name : StringView) (p : ChannelPtr) (n : Manager)
    → create_channel name m ≡ (p, n)
    → (create_channel name n ≡ (p, n))
      × ((j : Text)
          → find j n.channels ≡ (if text_eq (c_string name) j then some p else find j m.channels))
      × (((find (c_string name) m.channels ≡ some p) × (n ≡ m))
          ⊎ ((find (c_string name) m.channels ≡ none)
              × (p ≡ length m.memory.channel_heap)
              × (n.memory.channel_heap ≡ m.memory.channel_heap ++ fresh name m ∷ [])))
unfolding create_channel
create_channel_lem m name p n h = elim (Option-cases (find (c_string name) m.channels)) [
  | inr (r, e) ↦
      let hr : (r, m) ≡ (p, n) = rw e at h in
      rw (← ap (λ x. x.1) hr, ← ap (λ x. x.0) hr, e)
        (refl, (λ j. ground (arith, e, text_eq_iff (c_string name) j)), inl (refl, refl))
  | inl e ↦
      let heap = m.memory.channel_heap in
      let hr : emplace name none m ≡ (p, n) = rw e at h in
      let now : find (c_string name) (insert_or_assign (c_string name) (length heap) m.channels)
          ≡ some (length heap) =
        ground (
          arith,
          find-insert_or_assign (c_string name) (c_string name) (length heap) m.channels,
          text_eq_iff (c_string name) (c_string name),
        ) in
      rw (← ap (λ x. x.1) hr, ← ap (λ x. x.0) hr, now, e)
        (
          refl,
          (λ j. find-insert_or_assign (c_string name) j (length heap) m.channels),
          inr (refl, refl, refl),
        )
]

-- set_log_level makes the level the default, and if it was not, gives it to every registered channel,
-- the muted ones as well; channels that are not registered keep theirs.
pub set_log_level_lem :
    (m : Manager) (l : LogLevel)
    → (value (set_log_level l m).default_log_level ≡ value l)
      × ((q : ChannelPtr)
          → deref q (set_log_level l m).memory.channel_heap ≡ (
              if not (value l == value m.default_log_level) && registers m.channels q
              then with_level l (deref q m.memory.channel_heap)
              else deref q m.memory.channel_heap))
unfolding set_log_level apply_default
set_log_level_lem m l = elim (Bool-cases (value l == value m.default_log_level)) [
  | inl y ↦ rw y (ground (arith, y, ==_iff (value l) (value m.default_log_level)), λ q. refl)
  | inr n ↦ rw n (refl, λ q. deref-set_all l m.channels q m.memory.channel_heap)
]

abbrev pub leads_to : Option ChannelPtr → ChannelPtr → Bool
leads_to none q = false
leads_to (some p) q = p == q

-- mute_channel answers whether the name is registered; if so that channel's level is Quiet. No other
-- channel changes, and nothing else of the manager.
pub mute_channel_lem :
    (m : Manager) (name : Text)
    → ((mute_channel name m).0 ≡ has_channel name m)
      × ((q : ChannelPtr)
          → deref q (mute_channel name m).1.memory.channel_heap ≡ (
              if leads_to (find name m.channels) q
              then with_level LogLevel.quiet (deref q m.memory.channel_heap)
              else deref q m.memory.channel_heap))
      × (with_heap m.memory.channel_heap (mute_channel name m).1 ≡ m)
unfolding mute_channel has_channel
mute_channel_lem m name = elim (Option-cases (find name m.channels)) [
  | inl e ↦ rw (contains-find name m.channels, e) (refl, (λ q. refl), refl)
  | inr (p, e) ↦
      rw (contains-find name m.channels, e)
        (refl, (λ q. deref-set_log_level LogLevel.quiet p q m.memory.channel_heap), refl)
]
