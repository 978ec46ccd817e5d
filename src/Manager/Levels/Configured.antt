-- ===== src/Manager/Levels/Configured.antt =====
-- The levels that configure leaves.
use octo_logger_cpp.Prelude.{
  ℕ, ◌%◌, ◌-◌, ◌≡◌, refl, ap, Bool, true, false, some, List, [], ◌∷◌, Bool-cases, inl, inr,
  if◌then◌else◌, arith, ◌∙◌,
}
use octo_logger_cpp.Prelude.Text.{Text, text_Eq}
use octo_logger_cpp.Prelude.Map.{
  Map, find, insert_or_assign, find-insert_or_assign, contains-find, contains, erase, find-erase,
}
use octo_logger_cpp.Prelude.Int.{ℤ, pos, negsuc}
use octo_logger_cpp.Level.{LogLevel, value, of_value}
use octo_logger_cpp.Config.SinkConfig.{SinkConfig}
use octo_logger_cpp.Config.ManagerConfig.{
  ManagerConfig, logger_option_Eq, has_option, option, option_int, set_option, set_option_int,
  remove_option, default_channel_level,
}
use octo_logger_cpp.Prelude.Decimal.{IsInt, int_text, read_int-int_text}
use octo_logger_cpp.Channel.{ChannelPtr, Heap, deref}
use octo_logger_cpp.Manager.{
  Manager, configure, configured_level, level_of_int, create_sinks, create_one, creates,
  apply_default, clear_sinks, set_all,
}
use octo_logger_cpp.Manager.Writes.{with_level, registers, deref-set_all}

create_one_keeps :
    (b : Bool) (c : SinkConfig) (m : Manager)
    → ((create_one b c m).channels ≡ m.channels)
      × ((create_one b c m).memory.channel_heap ≡ m.memory.channel_heap)
      × ((create_one b c m).default_log_level ≡ m.default_log_level)
create_one_keeps false c m = (refl, refl, refl)
create_one_keeps true c m = (refl, refl, refl)

create_sinks_keeps :
    (cs : List SinkConfig) (m : Manager)
    → ((create_sinks cs m).channels ≡ m.channels)
      × ((create_sinks cs m).memory.channel_heap ≡ m.memory.channel_heap)
      × ((create_sinks cs m).default_log_level ≡ m.default_log_level)
unfolding create_sinks
create_sinks_keeps [] m = (refl, refl, refl)
create_sinks_keeps (c ∷ cs) m =
    let (a, b, d) = create_one_keeps (creates c) c m in
    let (x, y, z) = create_sinks_keeps cs (create_one (creates c) c m) in (x ∙ a, y ∙ b, z ∙ d)

-- The manager as the loop over the sink configurations finds it.
abbrev leveled : ℤ → ManagerConfig → Bool → Manager → Manager
leveled junk config clear_old_sinks m =
    let cleared : Manager = if clear_old_sinks then clear_sinks m else m in
    record cleared {
      config = config;
      default_log_level =
          if has_option default_channel_level config
          then configured_level junk (option_int default_channel_level config)
              cleared.default_log_level
          else cleared.default_log_level;
    }

leveled_keeps :
    (junk : ℤ) (config : ManagerConfig) (b : Bool) (m : Manager)
    → ((leveled junk config b m).channels ≡ m.channels)
      × ((leveled junk config b m).memory.channel_heap ≡ m.memory.channel_heap)
      × ((leveled junk config b m).default_log_level ≡ (
          if has_option default_channel_level config
          then configured_level junk (option_int default_channel_level config) m.default_log_level
          else m.default_log_level))
unfolding clear_sinks
leveled_keeps junk config false m = (refl, refl, refl)
leveled_keeps junk config true m = (refl, refl, refl)

set_all_from :
    (n : Manager) (cs : Map Text ChannelPtr) (heap : Heap)
    → n.channels ≡ cs
    → n.memory.channel_heap ≡ heap
    → (q : ChannelPtr)
    → deref q (set_all n.default_log_level n.channels n.memory.channel_heap)
      ≡ (if registers cs q then with_level n.default_log_level (deref q heap) else deref q heap)
set_all_from n cs heap ec eh q = rw (ec, eh) (deref-set_all n.default_log_level cs q heap)

-- The low eight bits of an int in two's complement.
abbrev pub low_byte : ℤ → ℕ
low_byte (pos n) = n % 256
low_byte (negsuc n) = 255 - n % 256

value-of_value : (n : ℕ) → value (of_value n) ≡ n % 256
unfolding of_value
value-of_value n = ground arith

value-level_of_int : (z : ℤ) → value (level_of_int z) ≡ low_byte z
value-level_of_int (pos n) = value-of_value n
value-level_of_int (negsuc n) = value-of_value (255 - n % 256) ∙ omega arith

-- The level that configure reads.
abbrev read_level : ℤ → ManagerConfig → LogLevel → LogLevel
read_level junk config level =
    if has_option default_channel_level config
    then configured_level junk (option_int default_channel_level config) level
    else level

read_level-set :
    (junk z : ℤ) (config : ManagerConfig) (level : LogLevel)
    → IsInt z
    → value (read_level junk (set_option_int default_channel_level z config) level) ≡ low_byte z
unfolding has_option option_int option set_option_int set_option
read_level-set junk z config level h =
    let text = int_text z in
    let now : find default_channel_level
          (insert_or_assign default_channel_level text config.logger_options)
        ≡ some text =
      find-insert_or_assign default_channel_level default_channel_level text
        config.logger_options in
    let there : contains default_channel_level
          (insert_or_assign default_channel_level text config.logger_options)
        ≡ true =
      contains-find default_channel_level
        (insert_or_assign default_channel_level text config.logger_options)
      ∙ (rw now refl) in
    rw (there, now, read_int-int_text z h) (value-level_of_int z)

read_level-removed :
    (junk : ℤ) (config : ManagerConfig) (level : LogLevel)
    → read_level junk (remove_option default_channel_level config).0 level ≡ level
unfolding has_option remove_option
read_level-removed junk config level =
    let there = contains default_channel_level config.logger_options in
    let gone : contains default_channel_level (erase default_channel_level config.logger_options)
        ≡ false =
      contains-find default_channel_level (erase default_channel_level config.logger_options)
      ∙ (rw (find-erase default_channel_level default_channel_level config.logger_options) refl) in
    elim (Bool-cases there) [ inl y ↦ rw (y, gone) refl | inr n ↦ rw (n, n) refl ]

configure_keeps :
    (m : Manager) (junk : ℤ) (config : ManagerConfig) (clear_old_sinks : Bool)
    → let n = configure junk config clear_old_sinks m in
      (n.default_log_level ≡ read_level junk config m.default_log_level)
      × ((q : ChannelPtr)
          → deref q n.memory.channel_heap ≡ (
              if registers m.channels q
              then with_level n.default_log_level (deref q m.memory.channel_heap)
              else deref q m.memory.channel_heap))
unfolding configure apply_default
configure_keeps m junk config b =
    let l = leveled junk config b m in
    let (x, y, z) = create_sinks_keeps config.sink_configs l in
    let (a, h, d) = leveled_keeps junk config b m in
    (
      z ∙ d,
      set_all_from (create_sinks config.sink_configs l) m.channels m.memory.channel_heap (x ∙ a)
          (y ∙ h),
    )

-- The default level is now n, and every registered channel has it, the muted ones as well; channels that are
-- not registered keep theirs.
abbrev pub Leveled : Manager → Manager → Type 0
Leveled m n =
    (q : ChannelPtr)
    → deref q n.memory.channel_heap ≡ (
        if registers m.channels q
        then with_level n.default_log_level (deref q m.memory.channel_heap)
        else deref q m.memory.channel_heap)

-- configure with a configuration that an int was set in for the default level makes the level whose number is
-- the low eight bits of that int the default; with one that the option was removed from it keeps the default.
-- Either way it gives the default to every registered channel, changed or not, so it undoes mute_channel and
-- the levels that were set on single channels; channels that are not registered keep theirs.
pub configure_levels :
    (m : Manager) (junk z : ℤ) (config : ManagerConfig) (clear_old_sinks : Bool)
    → IsInt z
    → let set = configure junk (set_option_int default_channel_level z config) clear_old_sinks m in
      let unset = configure junk (remove_option default_channel_level config).0 clear_old_sinks m in
      (value set.default_log_level ≡ low_byte z)
      × Leveled m set
      × (unset.default_log_level ≡ m.default_log_level)
      × Leveled m unset
configure_levels m junk z config b h =
    let (d, q) = configure_keeps m junk (set_option_int default_channel_level z config) b in
    let (e, r) = configure_keeps m junk (remove_option default_channel_level config).0 b in
    (
      ap value d ∙ read_level-set junk z config m.default_log_level h,
      q,
      e ∙ read_level-removed junk config m.default_log_level,
      r,
    )
