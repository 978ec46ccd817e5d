-- ===== src/Manager/Valid/Reached.antt =====
-- Every operation keeps the invariant, so it holds wherever they lead.
use octo_logger_cpp.Prelude.{false}
use octo_logger_cpp.Prelude.Text.{text_Eq}
use octo_logger_cpp.Prelude.Map.{find}
use octo_logger_cpp.Context.{ContextInfo, update}
use octo_logger_cpp.Channel.{Channel, ChannelPtr, Heap, StringView, c_string}
use octo_logger_cpp.Channel
use octo_logger_cpp.Manager.{
  Manager, Memory, new_manager, terminate, stop, restart_sinks, clear_sinks, clear_channels, dump,
  replace_global_context_info, update_global_context_info, child_on_fork, stop_call, dump_call,
  restart_call,
}
use octo_logger_cpp.Manager.Steps.{Step, Reachable, made, after, SinksKnown}
use octo_logger_cpp.Manager.Steps
use octo_logger_cpp.Manager.Writes.{names-set_log_level}
use octo_logger_cpp.Manager.Valid.{Valid, renamed, no_channels, create_channel-Valid}
use octo_logger_cpp.Manager.Valid.Preserved.{
  clear_sinks-Valid, custom-Valid, call_sinks-Valid, configure-Valid, set_log_level-Valid,
  mute_channel-Valid,
}

module _ (Name : StringView → Type 0) where
  replaced :
      (m : Manager) (ci : ContextInfo)
      → Valid Name m
      → Valid Name (record m { global_context_info = ci })
  replaced m ci v = record {
    one_entry = v.one_entry;
    named = v.named;
    distinct = v.distinct;
    known = v.known;
  }

  -- Every step keeps the invariant.
  pub Step-Valid : {m n : Manager} → Step Name m n → Valid Name m → Valid Name n
  unfolding terminate stop clear_sinks clear_channels restart_sinks dump replace_global_context_info
      update_global_context_info child_on_fork
  Step-Valid (Steps.create_step m name ok) v = create_channel-Valid Name m name ok v
  Step-Valid (Steps.mute_step m name) v = mute_channel-Valid Name m name v
  Step-Valid (Steps.set_step m l) v = set_log_level-Valid Name m l v
  Step-Valid (Steps.configure_step m junk c b k) v = configure-Valid Name m junk c b v k
  Step-Valid (Steps.terminate_step m) v =
      no_channels Name (clear_sinks (stop false m))
        (clear_sinks-Valid Name (stop false m) (call_sinks-Valid Name (stop_call false) m v))
  Step-Valid (Steps.stop_step m b) v = call_sinks-Valid Name (stop_call b) m v
  Step-Valid (Steps.restart_step m) v = call_sinks-Valid Name restart_call m v
  Step-Valid (Steps.clear_sinks_step m) v = clear_sinks-Valid Name m v
  Step-Valid (Steps.clear_channels_step m) v = no_channels Name m v
  Step-Valid (Steps.dump_step m l c ci) v =
      call_sinks-Valid Name (dump_call l c ci m.global_context_info) m v
  Step-Valid (Steps.replace_step m ci) v = replaced m ci v
  Step-Valid (Steps.update_step m ci) v = replaced m (update m.global_context_info ci) v
  Step-Valid (Steps.fork_step m) v = replaced m m.global_context_info v
  Step-Valid (Steps.level_step m l p) v =
      renamed Name m (Channel.set_log_level l p m.memory.channel_heap)
        (names-set_log_level l p m.memory.channel_heap) v
  Step-Valid (Steps.custom_step m c) v = custom-Valid Name m c v

  new-Valid : (mem : Memory) → Valid Name (new_manager mem)
  unfolding new_manager find
  new-Valid mem = record {
    one_entry = tt;
    named = λ k p e. cc;
    distinct = λ j k p e f. cc;
    known = tt;
  }

  -- In every state that a manager comes to, the map has one entry for each key, an entry leads to a channel in
  -- memory, no two keys lead to one channel, and every sink in the vector is in memory. The channel has the name
  -- of a view, and the key is the C string at the view; the view is one of those that channels were made by,
  -- since it has every property that they all have.
  pub Reachable-Valid : {m : Manager} → Reachable Name m → Valid Name m
  Reachable-Valid (made mem) = new-Valid mem
  Reachable-Valid (after r s) = Step-Valid s (Reachable-Valid r)
