-- ===== src/Flow/Tests.antt =====
-- A logging statement of a process with a file sink and another one.
use octo_logger_cpp.Prelude.{
  ◌≡◌, refl, sym, subst, true, false, none, some, [], ◌∷◌, arith, if◌then◌else◌,
}
use octo_logger_cpp.Prelude.Text.{text_Eq, codes}
use octo_logger_cpp.Prelude.Int.{pos}
use octo_logger_cpp.Prelude.Map.{find}
use octo_logger_cpp.Level.{LogLevel, level_to_string_upper}
use octo_logger_cpp.Channel.{Logger}
use octo_logger_cpp.Sink.{formatted_log, construct_log_json}
use octo_logger_cpp.Manager.{Manager, terminate}
use octo_logger_cpp.Logger.{managed, is_enabled, write}
use octo_logger_cpp.Logger.Writing.{finished}
use octo_logger_cpp.FileSink.Streams.{base_name, dump}
use octo_logger_cpp.FileSink.Writing.{Writes, HasRoom}
use octo_logger_cpp.FileSink.Disk.{disk, system, with_index, net}
use octo_logger_cpp.Flow.{carry_out_all, calls_since}
use octo_logger_cpp.Flow.Classes.{file_class, cloudwatch_class}
use octo_logger_cpp.Flow.Broadcast.{Registered, write-on_dump}
use octo_logger_cpp.Flow.Terminating.{Sent, terminate-Sent}
use octo_logger_cpp.Aws.CloudWatch.Life.Sample.{counting, no_lambda, with_logs, added, one_logged}
use octo_logger_cpp.Aws.CloudWatch.Life.Sample
use octo_logger_cpp.Prelude.Result.{ok}
use octo_logger_cpp.Flow.Reaching.{write-Writes}

abbrev manager : Manager
manager = record {
  channels = (codes "net", 0) ∷ [];
  sinks = 4 ∷ 7 ∷ [];
  config = record { sink_configs = []; custom_sinks = []; logger_options = [] };
  default_log_level = LogLevel.info;
  global_logger = none;
  global_context_info = [];
  memory = record { channel_heap = net ∷ []; sink_heap = []; calls = []; released = [] };
}

abbrev logger : Logger
logger = record { context_info = []; channel_view = 0 }

formats :
    formatted_log system
      (with_index (pos 1) 0).base
      (finished 5 LogLevel.error [] [] (codes "u" ∷ codes "p" ∷ []))
      net
      []
      []
      true
    ≡ some (codes "up")
unfolding formatted_log construct_log_json level_to_string_upper
formats = refl

named : base_name system (pos 9) (codes "ALL") (with_index (pos 1) 0) ≡ some (codes "ALL")
unfolding base_name
named = refl

known :
    find (codes "ALL") (with_index (pos 1) 0).current_files
    ≡ some (record { stream = some 0; index = 0 })
unfolding find
known = refl

registered : Registered 7 manager.sinks
registered = (4 ∷ [], [], refl, (refl, tt), tt)

write-on_dump_example :
    carry_out_all
      (file_class disk system (pos 9))
      7
      (calls_since manager (write 5 LogLevel.info [] [] (codes "up" ∷ []) logger (managed manager)))
      (with_index (pos 1) 0)
    ≡ (if is_enabled LogLevel.info LogLevel.info
        then dump disk system
            (pos 9)
            (finished 5 LogLevel.info [] [] (codes "up" ∷ []))
            net
            []
            []
            (with_index (pos 1) 0)
        else some (with_index (pos 1) 0))
write-on_dump_example =
    write-on_dump (file_class disk system (pos 9)) 5 LogLevel.info [] [] (codes "up" ∷ []) logger
      manager net 7 (with_index (pos 1) 0) refl refl registered

write-Writes_example : Writes disk (codes "ALL") (codes "up") (
    carry_out_all
      (file_class disk system (pos 9))
      7
      (calls_since manager
        (write 5 LogLevel.error [] [] (codes "u" ∷ codes "p" ∷ []) logger (managed manager)))
      (with_index (pos 1) 0))
write-Writes_example =
    write-Writes disk system 5 (pos 9) LogLevel.error [] [] (codes "u" ∷ codes "p" ∷ []) logger
      manager net 7 (with_index (pos 1) 0) (codes "ALL") (codes "up") (codes "ALL") refl refl refl
      registered refl formats named (subst (HasRoom (pos 1) false) (sym known) refl)

terminate-Sent_example : Sent (with_logs []) added (
    carry_out_all
      (cloudwatch_class counting no_lambda Sample.system 7)
      7
      (calls_since manager (ok (some (managed (terminate manager)))))
      (with_logs added))
terminate-Sent_example =
    terminate-Sent counting no_lambda Sample.system 7 manager 7 (with_logs []) (with_logs added)
      added registered refl refl refl one_logged refl refl (omega arith)
