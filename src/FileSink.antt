-- ===== src/FileSink.antt =====
-- src/sinks/file-sink.cpp and its header: the files of a channel, their names and their rotation.
pub mod Names
pub mod Folders
pub mod Rotation
pub mod Streams
pub mod Writing
pub mod Limit
pub mod Making
pub mod Disk
mod Tests
use octo_logger_cpp.Prelude.{
  ℕ, zero, suc, ◌+◌, ◌-◌, ◌%◌, ◌^◌, ◌*◌, Bool, true, false, not, ◌&&◌, Option, none, some, List, [],
  ◌∷◌, ◌++◌, length, take, drop, ltb, leb, ◌==◌, if◌then◌else◌,
}
use octo_logger_cpp.Prelude.Text.{Text, text_Eq, codes, is_empty, find_at}
use octo_logger_cpp.Prelude.Int.{ℤ, pos, negsuc}
use octo_logger_cpp.Prelude.Decimal.{decimal, stoi}
use octo_logger_cpp.Prelude.Map.{Map, find, insert_or_assign, has}
use octo_logger_cpp.Compat.{Tm, zero_tm, localtime}
use octo_logger_cpp.Context.{ContextInfo}
use octo_logger_cpp.Config.SinkConfig.{
  SinkConfig, file_combined_channel_prefix, file_log_folder_prefix, file_log_files_path,
  file_size_per_log_file, file_max_log_files, file_separate_channel_files,
  file_log_folder_no_separate_by_date, file_no_date_on_name, file_no_time_on_name,
  file_disable_context_info, has_option, option_default, option_default_int, option_default_bool,
}
use octo_logger_cpp.Channel.{Channel, Log, until_nul}
use octo_logger_cpp.Sink.{
  Environment, Sink, plaintext_long, extract_format_with_default, formatted_log,
}
use octo_logger_cpp.Sink

-- The calls of the operating system and of std::ofstream, over an unknown state. A stream that has been
-- opened is a number; tellp is -1 if the stream has failed.
pub record FileSystem : Type 1 where
  pub State : Type 0
  pub exists : Text → State → Bool
  pub mkdir : Text → State → Bool × State
  pub dirname : Text → Text
  pub read_dir : Text → State → Option (List Text)
  pub open_append : Text → State → ℕ × State
  pub close : ℕ → State → State
  pub is_open : ℕ → State → Bool
  pub tellp : ℕ → State → ℤ
  pub write : ℕ → Text → State → State

-- A stream that has never been opened is `none`. The index is 32 bits wide.
pub record File : Type 0 where
  pub stream : Option ℕ
  pub index : ℕ

abbrev pub new_file : File
new_file = record { stream = none; index = 0 }

pub record FileSink (S : Type 0) : Type 0 where
  pub base : Sink
  pub prefix_folder_name : Text
  pub log_path : Text
  pub combined_channels_prefix : Text
  pub size_per_file : ℤ
  pub max_files : ℤ
  pub current_files : Map Text File
  pub separate_channels_to_files : Bool
  pub separate_logs_by_date_folder : Bool
  pub strftime_format : Text
  pub disable_file_context_info : Bool
  pub file_system : S

-- strftime of a format at the time `now`; localtime answers `none` for a time that it cannot tell.
abbrev pub formatted_time : Environment → Text → Option Tm → Option Text
formatted_time env format none = none
formatted_time env format (some tm) = some (env.strftime format tm)

unfoldable pub time_text : Environment → ℤ → Bool → Text → Option Text
time_text env now safe format =
    formatted_time env format (localtime env.localtime_r now zero_tm safe)

-- data()[size() - 1], which is out of bounds for the empty text: `none`.
unfoldable pub last_byte : Text → Option ℕ
last_byte [] = none
last_byte (c ∷ s) = elim s [ [] ↦ some c | d ∷ r ↦ last_byte s ]

abbrev pub path_with_date : Text → Bool → Option Text → Option Text
path_with_date path false date = some path
path_with_date path true none = none
path_with_date path true (some date) = some (path ++ date)

abbrev pub with_slash : Text → Option ℕ → Option Text
with_slash path none = none
with_slash path (some c) = some (if c == b'/' then path else path ++ codes "/")

abbrev pub with_prefix : Text → Bool → Option Text → Option Text → Option Text
with_prefix prefix by_date date none = none
with_prefix prefix by_date date (some path) =
    path_with_date (if is_empty prefix then path else (path ++ prefix) ++ codes "_") by_date date

-- create_log_path(): the new log_path_.
unfoldable pub create_log_path : Environment → ℤ → {S : Type 0} → FileSink S → Option Text
create_log_path env now s =
    with_prefix s.prefix_folder_name s.separate_logs_by_date_folder
      (time_text env now s.base.safe_localtime_utc (codes "%d-%m-%Y"))
      (with_slash s.log_path (last_byte s.log_path))

-- name.substr(n, size - n - 4), for n within the size: the last four bytes go, but if there are fewer than
-- four the length wraps around and all is kept.
abbrev pub between : ℕ → Text → Text
between n name =
    if leb (n + 4) (length name) then take (length name - n - 4) (drop n name) else drop n name

abbrev pub larger : ℕ → Option ℤ → ℕ
larger last none = last
larger last (some (negsuc n)) = last
larger last (some (pos n)) = if ltb last n then n else last

-- What a directory entry with the searched text in it does to last_index.
abbrev pub note_index : Text → ℕ → ℕ
note_index [] last = 1
note_index (c ∷ s) last = larger last (stoi s)

-- One round of the loop over the directory; no entry's name is empty.
unfoldable pub scan_entry : Text → ℕ → Text → ℕ
scan_entry base last name =
    if has (find_at base 0 name) then note_index (between (length base) name) last else last

unfoldable pub scan : Text → ℕ → List Text → ℕ
scan base last [] = last
scan base last (name ∷ names) = scan base (scan_entry base last name) names

abbrev pub first_index : Text → Option (List Text) → ℕ
first_index base none = 0
first_index base (some names) =
    let last = scan base 0 names in if ltb 0 last then (last + 1) % 2 ^ 32 else 0

-- The file's name, without the folder.
unfoldable pub file_name : Text → ℕ → Text
file_name base index =
    if index == 0
    then base ++ codes ".log"
    else ((base ++ codes ".") ++ decimal index) ++ codes ".log"

abbrev pub dated : Text → Text → Option Text → Option Text
dated base [] time = some base
dated base (c ∷ format) none = none
dated base (c ∷ format) (some time) = some ((base ++ codes "_") ++ time)
