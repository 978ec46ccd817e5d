-- ===== src/Manager/Sinks.antt =====
-- The sinks that configure makes, and those that terminate leaves.
use octo_logger_cpp.Prelude.{
  ℕ, suc, ◌≡◌, refl, ap, ◌∙◌, sym, Bool, true, false, List, [], ◌∷◌, ◌++◌, map, append_assoc,
  append-nil, length, length-append, if◌then◌else◌, arith,
}
use octo_logger_cpp.Prelude.Int.{ℤ}
use octo_logger_cpp.Config.SinkConfig.{SinkConfig}
use octo_logger_cpp.Config.ManagerConfig.{
  ManagerConfig, has_option, option_int, default_channel_level,
}
use octo_logger_cpp.Manager.{
  Manager, SinkPtr, stop_call, create_sinks, create_one, creates, configure, apply_default,
  clear_sinks, clear_channels, call_sinks, stop, terminate, configured_level,
}

-- The addresses of sinks that are made one after the other, the first at i.
abbrev pub addresses : ℕ → List SinkConfig → List SinkPtr
addresses i [] = []
addresses i (c ∷ cs) = i ∷ addresses (suc i) cs

-- The configurations that the factory makes a sink of.
abbrev pub creatable : List SinkConfig → List SinkConfig
creatable [] = []
creatable (c ∷ cs) = if creates c then c ∷ creatable cs else creatable cs

-- n is the manager m with sinks made of the configurations, put behind the others in their order.
abbrev Makes : List SinkConfig → Manager → Manager → Type 0
Makes cs m n =
    (n.sinks ≡ m.sinks ++ addresses (length m.memory.sink_heap) cs)
    × (n.memory.sink_heap ≡ m.memory.sink_heap ++ cs)
    × (n.memory.calls ≡ m.memory.calls)
    × (n.memory.released ≡ m.memory.released)

one_more :
    (b : Bool) (c : SinkConfig) (cs : List SinkConfig) (m n : Manager)
    → Makes cs (create_one b c m) n
    → Makes (if b then c ∷ cs else cs) m n
one_more false c cs m n h = h
one_more true c cs m n (s, h, k, d) =
    let e : length (m.memory.sink_heap ++ c ∷ []) ≡ suc (length m.memory.sink_heap) =
      omega (arith, length-append m.memory.sink_heap (c ∷ [])) in
    let i = length m.memory.sink_heap in
    (
      (rw e at s) ∙ append_assoc m.sinks (i ∷ []) (addresses (suc i) cs),
      h ∙ append_assoc m.memory.sink_heap (c ∷ []) cs,
      k,
      d,
    )

create_sinks-Makes :
    (cs : List SinkConfig) (m : Manager) → Makes (creatable cs) m (create_sinks cs m)
unfolding create_sinks
create_sinks-Makes [] m =
    (sym (append-nil m.sinks), sym (append-nil m.memory.sink_heap), refl, refl)
create_sinks-Makes (c ∷ cs) m =
    one_more (creates c) c (creatable cs) m (create_sinks cs (create_one (creates c) c m))
      (create_sinks-Makes cs (create_one (creates c) c m))

-- The manager as the loop over the configurations finds it.
abbrev start : ℤ → ManagerConfig → Manager → Manager
start junk config m = record m {
  config = config;
  default_log_level =
      if has_option default_channel_level config
      then configured_level junk (option_int default_channel_level config) m.default_log_level
      else m.default_log_level;
}

-- configure makes a sink of each configuration that the factory knows, in their order, each one new, and
-- puts them and then the custom sinks behind the old sinks, or in their place if these are to be cleared.
-- It calls none of stop, dump and restart_sink: the sinks that are cleared are not stopped but given up, each
-- once, which destroys those that nothing else holds; without the clearing none is given up.
pub configure_sinks :
    (m : Manager) (junk : ℤ) (config : ManagerConfig) (clear_old_sinks : Bool)
    → let n = configure junk config clear_old_sinks m in
      (n.sinks
        ≡ (if clear_old_sinks then [] else m.sinks)
          ++ addresses (length m.memory.sink_heap) (creatable config.sink_configs)
          ++ config.custom_sinks)
      × (n.memory.sink_heap ≡ m.memory.sink_heap ++ creatable config.sink_configs)
      × (n.memory.calls ≡ m.memory.calls)
      × (n.memory.released ≡ m.memory.released ++ (if clear_old_sinks then m.sinks else []))
unfolding configure apply_default clear_sinks
configure_sinks m junk config true =
    let (s, h, k, d) = create_sinks-Makes config.sink_configs (start junk config (clear_sinks m)) in
    (ap (λ r. r ++ config.custom_sinks) s, h, k, d)
configure_sinks m junk config false =
    let (s, h, k, d) = create_sinks-Makes config.sink_configs (start junk config m) in
    (ap (λ r. r ++ config.custom_sinks) s, h, k, d ∙ sym (append-nil m.memory.released))

-- terminate stops every sink once, in order and without discarding, and then gives each up, and leaves no sink
-- and no channel registered; a second one makes no call and gives up nothing. Channels in memory stay as they are.
pub terminate_lem :
    (m : Manager)
    → let n = terminate m in
      (n.memory.calls ≡ m.memory.calls ++ map (λ p. (p, stop_call false)) m.sinks)
      × (n.memory.released ≡ m.memory.released ++ m.sinks)
      × (n.sinks ≡ [])
      × (n.channels ≡ [])
      × (n.memory.channel_heap ≡ m.memory.channel_heap)
      × (terminate n ≡ n)
unfolding terminate clear_channels clear_sinks stop call_sinks
terminate_lem m = (
  refl,
  refl,
  refl,
  refl,
  refl,
  rw
      (
        append-nil (m.memory.calls ++ map (λ p. (p, stop_call false)) m.sinks),
        append-nil (m.memory.released ++ m.sinks),
      )
      refl,
)
