-- ===== src/FileSink/Tests.antt =====
-- The file sink on a disk, and the theorems there.
use octo_logger_cpp.Prelude.{
  ◌⊎◌, ◌≤◌, ◌≡◌, ◌<◌, ℕ, refl, sym, subst, true, false, some, [], ◌∷◌, arith, ◌>>=◌,
}
use octo_logger_cpp.Prelude.Text.{text_Eq, codes, find_at}
use octo_logger_cpp.Prelude.Int.{ℤ, pos}
use octo_logger_cpp.Prelude.Map
use octo_logger_cpp.Prelude.Decimal.{
  read_int, skip_spaces, read_signed, read_unsigned, read_digits, decimal, digits_before,
}
use octo_logger_cpp.Prelude.Map.{Map, find, insert_or_assign}
use octo_logger_cpp.Level.{LogLevel}
use octo_logger_cpp.Config.SinkConfig.{
  has_option, option, option_default, option_default_int, option_default_bool,
}
use octo_logger_cpp.Channel.{until_nul}
use octo_logger_cpp.Sink.{
  Environment, Sink, json, formatted_log, construct_log_json, extract_format_with_default,
}
use octo_logger_cpp.Sink
use octo_logger_cpp.FileSink.Making.{configured, make}
use octo_logger_cpp.FileSink.Streams.{base_name, dump, switch_stream}
use octo_logger_cpp.FileSink.Limit.{dumps, dumps-Within, dump_call, dump_limit}
use octo_logger_cpp.FileSink.Rotation.{Within}
use octo_logger_cpp.FileSink.Writing.{Writes, HasRoom, dump-Writes}
use octo_logger_cpp.FileSink.{create_log_path, last_byte}
use octo_logger_cpp.FileSink.{FileSystem, File, FileSink, first_index, file_name, between}
use octo_logger_cpp.FileSink.Folders.{
  recursive_folder_creation, Exists, recursive_folder_creation-Exists,
}
use octo_logger_cpp.FileSink.Names.{HasIndex, first_index-above, first_index_reset}
use octo_logger_cpp.FileSink.Disk.{
  disk, above-Shortens, disk-CanMake, system, config, with_index, net, a_log, call, files_of,
}

-- The constructor, then four logs: each but the first in a new file. A fourth is above the limit.
runs : Unit {0}
unfolding make configured dump switch_stream recursive_folder_creation create_log_path last_byte
    option_default option_default_int option_default_bool has_option option read_int skip_spaces
    read_signed read_unsigned read_digits decimal digits_before formatted_log construct_log_json
    find insert_or_assign Map.contains until_nul file_name octo_logger_cpp.Sink.make
    extract_format_with_default base_name octo_logger_cpp.FileSink.scan
    octo_logger_cpp.Level.level_to_string_upper
runs =
    let two : files_of (
          make disk system (pos 1) (pos 1) config
            (record { folders = []; files = []; streams = [] })
          >>= dumps disk system (call ∷ call ∷ call ∷ call ∷ []))
        ≡ (codes "a/b//ALL.log", codes "up\n")
          ∷ (codes "a/b//ALL.1.log", codes "up\n")
          ∷ (codes "a/b//ALL.2.log", codes "up\n")
          ∷ [] =
      refl in
    tt

formats : formatted_log system (with_index (pos 1) 0).base a_log net [] [] true ≡ some (codes "up")
unfolding formatted_log construct_log_json octo_logger_cpp.Level.level_to_string_upper
formats = refl

named : base_name system (pos 9) (codes "ALL") (with_index (pos 1) 0) ≡ some (codes "ALL")
unfolding base_name
named = refl

known :
    (m : ℤ) (index : ℕ)
    → find (codes "ALL") (with_index m index).current_files
      ≡ some (record { stream = some 0; index = index })
unfolding find
known m index = refl

dump-Writes_example :
    Writes disk
      (codes "ALL")
      (codes "up")
      (dump disk system (pos 9) a_log net [] [] (with_index (pos 1) 0))
dump-Writes_example =
    dump-Writes disk system (pos 9) a_log net [] [] (with_index (pos 1) 0) (codes "ALL")
      (codes "up") (codes "ALL") refl ((λ q. cc), formats) named
      (subst (HasRoom (pos 1) false) (sym (known (pos 1) 0)) refl)

dumps-Within_example :
    Within disk (pos 1) (dumps disk system (call ∷ call ∷ call ∷ []) (with_index (pos 1) 0))
dumps-Within_example =
    dumps-Within disk system (call ∷ call ∷ call ∷ []) (with_index (pos 1) 0) (pos 1) (λ q. cc)
      (refl, (omega arith, tt))

dump_limit_example :
    ((1 < 2) × (dump_call disk system call (with_index (pos 1) 2) ≡ some (with_index (pos 1) 2)))
    ⊎ ((2 ≤ 1)
        × Writes disk
            (codes "ALL")
            (codes "up")
            (dump_call disk system call (with_index (pos 1) 2)))
unfolding formatted_log construct_log_json octo_logger_cpp.Level.level_to_string_upper base_name
dump_limit_example =
    dump_limit disk system call (with_index (pos 1) 2) (codes "ALL") (codes "up") (codes "ALL")
      (record { stream = some 0; index = 2 }) 1 refl (omega arith) refl (known (pos 1) 2)
      ((λ q. cc), refl) refl

recursive_folder_creation-Exists_example : Exists disk (codes "a/b/c") (
    recursive_folder_creation disk 7
      (codes "a/b/c")
      (record { folders = []; files = []; streams = [] }))
recursive_folder_creation-Exists_example =
    recursive_folder_creation-Exists disk (codes "a/b/c")
      (record { folders = []; files = []; streams = [] }) above-Shortens disk-CanMake

other_entry : HasIndex (codes "ALL") (codes "x")
unfolding find_at
other_entry q = cc

first_index-above_example :
    2
    < first_index
        (codes "ALL")
        (some (file_name (codes "ALL") 0 ∷ file_name (codes "ALL") 2 ∷ codes "x" ∷ []))
first_index-above_example =
    first_index-above (codes "ALL") 1 (file_name (codes "ALL") 0 ∷ []) (codes "x" ∷ [])
      (omega arith) (other_entry, tt)

first_index_reset_example :
    first_index (codes "ALL") (some (file_name (codes "ALL") 5 ∷ file_name (codes "ALL") 0 ∷ []))
    ≡ 2
first_index_reset_example = first_index_reset (codes "ALL") (file_name (codes "ALL") 5 ∷ [])
