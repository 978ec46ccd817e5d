-- ===== src/FileSink/Making.antt =====
-- src/sinks/file-sink.cpp: the constructor.
use octo_logger_cpp.Prelude.{◌+◌, Bool, true, false, not, Option, some, [], ◌++◌, ◌>>=◌, length}
use octo_logger_cpp.Prelude.Text.{Text, codes}
use octo_logger_cpp.Prelude.Int.{ℤ, pos, negsuc}
use octo_logger_cpp.Config.SinkConfig.{
  SinkConfig, file_combined_channel_prefix, file_log_folder_prefix, file_log_files_path,
  file_size_per_log_file, file_max_log_files, file_separate_channel_files,
  file_log_folder_no_separate_by_date, file_no_date_on_name, file_no_time_on_name,
  file_disable_context_info, has_option, option_default, option_default_int, option_default_bool,
}
use octo_logger_cpp.Channel.{until_nul}
use octo_logger_cpp.Sink.{Environment, Sink, plaintext_long, extract_format_with_default}
use octo_logger_cpp.Sink
use octo_logger_cpp.FileSink.{FileSystem, FileSink, create_log_path}
use octo_logger_cpp.FileSink.Folders.{recursive_folder_creation}
use octo_logger_cpp.FileSink.Streams.{switch_stream}

-- The format of the time on a file's name, from the two options that leave out a part.
abbrev pub name_format : Bool → Bool → Text
name_format true true = []
name_format false true = codes "%d-%m-%Y"
name_format true false = codes "%H-%M-%S"
name_format false false = (codes "%d-%m-%Y" ++ codes "_") ++ codes "%H-%M-%S"

module _ (F : FileSystem) (env : Environment) where
  -- The members as the constructor sets them before it calls create_log_path.
  unfoldable pub configured : SinkConfig → F.State → Option (FileSink F.State)
  configured config st = do
    format ← extract_format_with_default config plaintext_long
    base ← Sink.make config [] format
    size ← option_default_int file_size_per_log_file (pos 1048576) config
    max ← option_default_int file_max_log_files (negsuc 0) config
    separate ← option_default_bool file_separate_channel_files false config
    context ← option_default_bool file_disable_context_info true config
    some (record {
      base = base;
      prefix_folder_name = option_default file_log_folder_prefix [] config;
      log_path = option_default file_log_files_path (codes "./") config;
      combined_channels_prefix = option_default file_combined_channel_prefix (codes "ALL") config;
      size_per_file = size;
      max_files = max;
      current_files = [];
      separate_channels_to_files = separate;
      separate_logs_by_date_folder = not (has_option file_log_folder_no_separate_by_date config);
      strftime_format =
          name_format (has_option file_no_date_on_name config)
            (has_option file_no_time_on_name config);
      disable_file_context_info = context;
      file_system = st;
    })

  -- The first file of a sink that does not separate the channels.
  abbrev pub first_file : ℤ → Bool → FileSink F.State → Option (FileSink F.State)
  first_file now true s = some s
  first_file now false s = switch_stream F env now s.combined_channels_prefix s

  -- FileSink(config); the time is asked for the folder and again for the first file. The folder's path
  -- ends at its first NUL.
  unfoldable pub make : ℤ → ℤ → SinkConfig → F.State → Option (FileSink F.State)
  make now later config st = do
    s ← configured config st
    path ← create_log_path env now s
    (ok, made) ← recursive_folder_creation F (length path + 2) (until_nul path) s.file_system
    first_file later s.separate_channels_to_files (record s { log_path = path; file_system = made })
