-- ===== src/FileSink/Disk.antt =====
-- A disk that keeps folders and the texts of files, and a file sink on it.
use octo_logger_cpp.Prelude.{
  ◌≡◌, ◌≢◌, ◌<◌, ◌-◌, ℕ, refl, ◌⊎◌, inl, inr, Bool, true, false, ◌||◌, Option, none, some, List, [],
  ◌∷◌, ◌++◌, length, drop, get_elem?, ◌==◌, if◌then◌else◌, arith,
}
use octo_logger_cpp.Prelude.Text.{Text, text_Eq, text_eq, text_eq_iff, codes, starts_with}
use octo_logger_cpp.Prelude.Int.{ℤ, pos}
use octo_logger_cpp.Prelude.Map.{Map, find, insert_or_assign}
use octo_logger_cpp.Level.{LogLevel}
use octo_logger_cpp.Config.SinkConfig.{
  SinkConfig, file_sink, line_format, file_log_files_path, file_size_per_log_file,
  file_max_log_files, file_log_folder_no_separate_by_date, file_no_date_on_name,
  file_no_time_on_name,
}
use octo_logger_cpp.Channel.{Channel, Log}
use octo_logger_cpp.Sink.{Environment, json}
use octo_logger_cpp.FileSink.Limit.{Call}
use octo_logger_cpp.FileSink.{FileSystem, FileSink}
use octo_logger_cpp.FileSink.Folders.{Shortens, CanMake}

-- The open streams are the paths of their files, the last one first.
pub record Disk : Type 0 where
  pub folders : List Text
  pub files : Map Text Text
  pub streams : List Text

abbrev has_slash : Text → Bool
has_slash [] = false
has_slash (c ∷ s) = c == b'/' || has_slash s

-- What stands before the last slash.
abbrev cut : Text → Text
cut [] = []
cut (c ∷ s) = let rest = cut s in if has_slash s then c ∷ rest else []

abbrev or_root : Text → Text
or_root [] = codes "/"
or_root (c ∷ s) = c ∷ s

abbrev above : Text → Text
above s = if has_slash s then or_root (cut s) else codes "."

abbrev listed : Text → List Text → Bool
listed path [] = false
listed path (p ∷ ps) = text_eq path p || listed path ps

abbrev is_folder : Text → Disk → Bool
is_folder path d = text_eq path (codes ".") || (text_eq path (codes "/") || listed path d.folders)

abbrev text_of : Option Text → Text
text_of none = []
text_of (some text) = text

abbrev path_of : ℕ → Disk → Text
path_of h d = text_of (get_elem? d.streams (length d.streams - 1 - h))

abbrev content : Text → Disk → Text
content path d = text_of (find path d.files)

abbrev entries : Text → Map Text Text → List Text
entries folder [] = []
entries folder ((path, text) ∷ files) =
    let rest = entries folder files in
    if starts_with path folder then drop (length folder) path ∷ rest else rest

abbrev pub disk : FileSystem
disk = record {
  State = Disk;
  exists = is_folder;
  mkdir = λ path d. (true, record d { folders = path ∷ d.folders });
  dirname = above;
  read_dir = λ path d. some (entries (path ++ codes "/") d.files);
  open_append = λ path d. (
    length d.streams,
    record d { files = insert_or_assign path (content path d) d.files; streams = path ∷ d.streams },
  );
  close = λ h d. d;
  is_open = λ h d. true;
  tellp = λ h d. pos (length (content (path_of h d) d));
  write = λ h text d. record d {
    files = insert_or_assign (path_of h d) (content (path_of h d) d ++ text) d.files;
  };
}

length-cut : (s : Text) → s ≢ [] → length (cut s) < length s
length-cut [] h = absurd (h refl)
length-cut (c ∷ []) h = ground arith
length-cut (c ∷ d ∷ s) h = ground (arith, length-cut (d ∷ s) (λ q. cc))

or_root-Shortens :
    (dir s : Text) (d : Disk)
    → length s < length dir
    → (is_folder (or_root s) d ≡ true) ⊎ (length (or_root s) < length dir)
or_root-Shortens dir [] d h = inl refl
or_root-Shortens dir (c ∷ s) d h = inr h

pub above-Shortens : Shortens disk
above-Shortens [] d h = inl refl
above-Shortens (c ∷ s) d h =
    ground (arith, or_root-Shortens (c ∷ s) (cut (c ∷ s)) d (length-cut (c ∷ s) (λ q. cc)))

pub disk-CanMake : CanMake disk
disk-CanMake dir st h = ground (arith, (text_eq_iff dir dir).1 refl)

abbrev pub system : Environment
system = record {
  localtime_r = λ t tm. some tm;
  strftime = λ f tm. codes "now";
  process_id = codes "7";
  thread_id = codes "8";
  json_dump = λ j. some j.message;
}

abbrev pub config : SinkConfig
config = record {
  options =
      (file_log_folder_no_separate_by_date, codes "1")
      ∷ (file_no_date_on_name, codes "1")
      ∷ (file_no_time_on_name, codes "1")
      ∷ (file_size_per_log_file, codes "1")
      ∷ (file_max_log_files, codes "1")
      ∷ (file_log_files_path, codes "a/b")
      ∷ (line_format, codes "2")
      ∷ [];
  sink_type = file_sink;
  sink_name = codes "files";
}

-- At an index, the sink's one file is full, by its size.
abbrev pub with_index : ℤ → ℕ → FileSink Disk
with_index m index = record {
  base = record {
    config = config;
    is_discarding = false;
    origin = [];
    format = json;
    safe_localtime_utc = false;
  };
  prefix_folder_name = [];
  log_path = codes "a/b/";
  combined_channels_prefix = codes "ALL";
  size_per_file = pos 1;
  max_files = m;
  current_files = (codes "ALL", record { stream = some 0; index = index }) ∷ [];
  separate_channels_to_files = false;
  separate_logs_by_date_folder = false;
  strftime_format = [];
  disable_file_context_info = true;
  file_system = record {
    folders = codes "a/b/" ∷ codes "a" ∷ [];
    files = (codes "a/b//ALL.log", codes "old") ∷ [];
    streams = codes "a/b//ALL.log" ∷ [];
  };
}

abbrev pub net : Channel
net = record { channel_name = codes "net"; channel_level = LogLevel.info }

abbrev pub a_log : Log
a_log = record {
  stream = some (codes "up");
  log_level = LogLevel.error;
  time_created = 5;
  extra_identifier = [];
  log_context_info = [];
}

abbrev pub call : Call
call = record {
  now = pos 9;
  log = a_log;
  channel = net;
  context_info = [];
  global_context_info = [];
}

abbrev pub files_of : Option (FileSink Disk) → Map Text Text
files_of none = []
files_of (some s) = s.file_system.files
