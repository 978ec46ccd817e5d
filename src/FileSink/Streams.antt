-- ===== src/FileSink/Streams.antt =====
-- src/sinks/file-sink.cpp: the change of a channel's file and the writing of a log, with the end of the sink.
use octo_logger_cpp.Prelude.{
  ℕ, suc, zero, ◌+◌, ◌-◌, ◌%◌, ◌^◌, Bool, true, false, Option, none, some, [], ◌∷◌, ◌++◌, ltb,
  if◌then◌else◌,
}
use octo_logger_cpp.Prelude.Text.{Text, text_Eq, codes}
use octo_logger_cpp.Prelude.Int.{ℤ, pos, negsuc, ltb_ℤ}
use octo_logger_cpp.Prelude.Map.{Map, find, insert_or_assign, has}
use octo_logger_cpp.Context.{ContextInfo}
use octo_logger_cpp.Channel.{Channel, Log, until_nul}
use octo_logger_cpp.Sink.{Environment, formatted_log}
use octo_logger_cpp.FileSink.{
  FileSystem, File, new_file, FileSink, time_text, first_index, file_name, dated,
}

-- static_cast<std::uint32_t> of an int
abbrev pub to_u32 : ℤ → ℕ
to_u32 (pos n) = n % 2 ^ 32
to_u32 (negsuc n) = 2 ^ 32 - 1 - n % 2 ^ 32

-- max_files_ != -1 && index > max_files_
abbrev pub is_full : ℤ → ℕ → Bool
is_full (pos n) index = ltb (to_u32 (pos n)) index
is_full (negsuc zero) index = false
is_full (negsuc (suc n)) index = ltb (to_u32 (negsuc (suc n))) index

-- Names of files, from the channel's and the sink's.
abbrev pub base_of : Bool → Text → Text → Text
base_of true channel combined = channel
base_of false channel combined = combined

unfoldable pub base_name : Environment → ℤ → {S : Type 0} → Text → FileSink S → Option Text
base_name env now channel s =
    dated (base_of s.separate_channels_to_files channel s.combined_channels_prefix)
      s.strftime_format (time_text env now s.base.safe_localtime_utc s.strftime_format)

-- The name of a file ends at its first NUL.
abbrev pub file_path : Text → Text → ℕ → Text
file_path log_path base index =
    until_nul ((log_path ++ codes "/") ++ until_nul (file_name base index))

module _ (F : FileSystem) where
  -- is_open() and close(), tellp(), and operator<< of a stream, which does nothing if it was never opened
  abbrev pub closed : Option ℕ → F.State → F.State
  closed none st = st
  closed (some h) st = if F.is_open h st then F.close h st else st

  abbrev pub position : Option ℕ → F.State → ℤ
  position none st = negsuc 0
  position (some h) st = F.tellp h st

  abbrev pub put : Option ℕ → Text → F.State → F.State
  put none text st = st
  put (some h) text st = F.write h text st

  -- The opening of a file, and its entry in current_files_.
  abbrev pub opened : FileSink F.State → Text → ℕ → ℕ × F.State → FileSink F.State
  opened s channel index (h, st) = record s {
    current_files =
        insert_or_assign channel (record { stream = some h; index = index }) s.current_files;
    file_system = st;
  }

  abbrev pub open_file : FileSink F.State → Text → Text → ℕ → F.State → FileSink F.State
  open_file s channel base index st =
      opened s channel index (F.open_append (file_path s.log_path base index) st)

  abbrev pub next_file : FileSink F.State → Text → Text → Option File → FileSink F.State
  next_file s channel base none =
      open_file s channel base (first_index base (F.read_dir (until_nul s.log_path) s.file_system))
        s.file_system
  next_file s channel base (some file) =
      open_file s channel base ((file.index + 1) % 2 ^ 32) (closed file.stream s.file_system)

  abbrev pub switch_to : FileSink F.State → Text → Option Text → Option (FileSink F.State)
  switch_to s channel none = none
  switch_to s channel (some base) = some (next_file s channel base (find channel s.current_files))

  -- switch_stream(channel); `none` is a time that localtime cannot tell.
  unfoldable pub switch_stream :
      Environment → ℤ → Text → FileSink F.State → Option (FileSink F.State)
  switch_stream env now channel s = switch_to s channel (base_name env now channel s)

  -- In dump: a channel that has no file yet gets one, before switch_stream is called.
  abbrev pub with_file :
      Environment → ℤ → Text → Bool → FileSink F.State → Option (FileSink F.State)
  with_file env now channel true s = some s
  with_file env now channel false s =
      switch_stream env now channel
        (record s { current_files = insert_or_assign channel new_file s.current_files })

  abbrev pub ensured : Environment → ℤ → Text → Bool → FileSink F.State → Option (FileSink F.State)
  ensured env now channel false s = some s
  ensured env now channel true s = with_file env now channel (has (find channel s.current_files)) s

  -- operator<< of the line, and of std::endl
  abbrev pub write_line : Option File → Text → FileSink F.State → Option (FileSink F.State)
  write_line none line s = none
  write_line (some file) line s =
      some (record s {
        file_system = put file.stream (codes "\n") (put file.stream line s.file_system);
      })

  abbrev pub formatted : Text → Option Text → FileSink F.State → Option (FileSink F.State)
  formatted name none s = none
  formatted name (some line) s = write_line (find name s.current_files) line s

  -- has_stream(), and what is done with it
  abbrev pub logged :
      Environment
      → Text
      → Log
      → Channel
      → ContextInfo
      → ContextInfo
      → Option Text
      → Option (FileSink F.State)
      → Option (FileSink F.State)
  logged env name log c ci global stream none = none
  logged env name log c ci global none (some s) = some s
  logged env name log c ci global (some text) (some s) =
      formatted name (formatted_log env s.base log c ci global s.disable_file_context_info) s

  abbrev pub rotated : Environment → ℤ → Text → Bool → FileSink F.State → Option (FileSink F.State)
  rotated env now name false s = some s
  rotated env now name true s = switch_stream env now name s

  -- Everything after the test of max_files_.
  abbrev pub written :
      Environment
      → ℤ
      → Text
      → Log
      → Channel
      → ContextInfo
      → ContextInfo
      → File
      → Bool
      → FileSink F.State
      → Option (FileSink F.State)
  written env now name log c ci global file true s = some s
  written env now name log c ci global file false s =
      logged env name log c ci global log.stream
        (rotated env now name (ltb_ℤ s.size_per_file (position file.stream s.file_system)) s)

  -- current_files_[channel_name] without an entry is a null pointer, which is followed: `none`.
  abbrev pub dump_to :
      Environment
      → ℤ
      → Text
      → Log
      → Channel
      → ContextInfo
      → ContextInfo
      → FileSink F.State
      → Option File
      → Option (FileSink F.State)
  dump_to env now name log c ci global s none = none
  dump_to env now name log c ci global s (some file) =
      written env now name log c ci global file (is_full s.max_files file.index) s

  abbrev pub dump_with :
      Environment
      → ℤ
      → Text
      → Log
      → Channel
      → ContextInfo
      → ContextInfo
      → Option (FileSink F.State)
      → Option (FileSink F.State)
  dump_with env now name log c ci global none = none
  dump_with env now name log c ci global (some s) =
      dump_to env now name log c ci global s (find name s.current_files)

  -- dump(log, channel, context_info, global_context_info) at the time `now`. `none` is a log that
  -- cannot be formatted, or a time that localtime cannot tell.
  unfoldable pub dump :
      Environment
      → ℤ
      → Log
      → Channel
      → ContextInfo
      → ContextInfo
      → FileSink F.State
      → Option (FileSink F.State)
  dump env now log c ci global s =
      let name = base_of s.separate_channels_to_files c.channel_name s.combined_channels_prefix in
      dump_with env now name log c ci global (ensured env now name s.separate_channels_to_files s)

  -- ~FileSink()
  abbrev pub close_one : Option ℕ → F.State → F.State
  close_one none st = st
  close_one (some h) st = F.close h st

  unfoldable pub close_all : Map Text File → F.State → F.State
  close_all [] st = st
  close_all ((channel, file) ∷ files) st = close_all files (close_one file.stream st)
