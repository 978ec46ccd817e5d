-- ===== src/Flow/Reaching.antt =====
-- A logging statement as far as the file that its text is put into.
use octo_logger_cpp.Prelude.{◌≡◌, ℕ, sym, ap, ◌∙◌, subst, true, some, List, if◌then◌else◌}
use octo_logger_cpp.Prelude.Text.{Text, text_Eq}
use octo_logger_cpp.Prelude.Int.{ℤ}
use octo_logger_cpp.Prelude.Map.{find}
use octo_logger_cpp.Level.{LogLevel}
use octo_logger_cpp.Context.{ContextInfo}
use octo_logger_cpp.Channel.{Channel, Logger, deref}
use octo_logger_cpp.Sink.{Environment, formatted_log}
use octo_logger_cpp.Manager.{SinkPtr, Manager}
use octo_logger_cpp.Logger.{managed, is_enabled, write}
use octo_logger_cpp.Logger.Writing.{is_named, finished}
use octo_logger_cpp.FileSink.{FileSystem, FileSink}
use octo_logger_cpp.FileSink.Streams.{base_of, base_name, dump}
use octo_logger_cpp.FileSink.Writing.{Writes, HasRoom, dump-Writes}
use octo_logger_cpp.Flow.{carry_out_all, calls_since}
use octo_logger_cpp.Flow.Classes.{file_class}
use octo_logger_cpp.Flow.Broadcast.{Registered, write-on_dump}

module _ (F : FileSystem) (env : Environment) (now : ℕ) (later : ℤ) (level : LogLevel) (id : Text)
    (ci : ContextInfo) (values : List Text) (logger : Logger) (m : Manager) (c : Channel) where
  -- The calls that a statement on an enabled level makes put the line of all that was streamed into the
  -- stream of the channel's file, as the last that is done to the files, if the sink at p is a file sink
  -- that is registered once, whose file has room, and for which the line and the time can be formatted. The
  -- logger's channel is in memory, and the level has a name.
  pub write-Writes :
      (p : SinkPtr) (s : FileSink F.State) (name line base : Text)
      → is_named level ≡ true
      → deref logger.channel_view m.memory.channel_heap ≡ some c
      → is_enabled level c.channel_level ≡ true
      → Registered p m.sinks
      → name ≡ base_of s.separate_channels_to_files c.channel_name s.combined_channels_prefix
      → formatted_log env s.base
          (finished now level id ci values)
          c
          logger.context_info
          m.global_context_info
          s.disable_file_context_info
        ≡ some line
      → base_name env later name s ≡ some base
      → HasRoom s.max_files s.separate_channels_to_files (find name s.current_files)
      → Writes F name line (
          carry_out_all
            (file_class F env later)
            p
            (calls_since m (write now level id ci values logger (managed m)))
            s)
  write-Writes p s name line base n d e r named f t room =
      let log = finished now level id ci values in
      let dumped = dump F env later log c logger.context_info m.global_context_info s in
      subst (Writes F name line)
        (sym (
          write-on_dump (file_class F env later) now level id ci values logger m c p s n d r
          ∙ ap (λ b. if b then dumped else some s) e))
        (dump-Writes F env later log c logger.context_info m.global_context_info s name line base
          named ((λ x. cc), f) t room)
