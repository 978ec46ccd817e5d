-- ===== src/FileSink/Rotation.antt =====
-- src/sinks/file-sink.cpp: the index of a channel's file while logs are written.
use octo_logger_cpp.Prelude.{
  ◌≡◌, ◌≢◌, ◌≤◌, ◌+◌, ◌%◌, ◌^◌, ℕ, zero, suc, refl, sym, ap, ◌∙◌, subst, Bool, true, false, Option,
  none, some, [], ◌∷◌, All, arith,
}
use octo_logger_cpp.Prelude.Text.{Text, text_Eq}
use octo_logger_cpp.Prelude.Int.{ℤ, pos, negsuc}
use octo_logger_cpp.Prelude.Map.{Map, find, insert_or_assign, find-insert_or_assign_same, has}
use octo_logger_cpp.Context.{ContextInfo}
use octo_logger_cpp.Channel.{Channel, Log}
use octo_logger_cpp.Sink.{Environment, formatted_log}
use octo_logger_cpp.FileSink.{FileSystem, File, new_file, FileSink}
use octo_logger_cpp.FileSink.Streams.{
  to_u32, is_full, base_name, file_path, opened, next_file, switch_to, switch_stream, with_file,
  ensured, closed, write_line, formatted, logged, rotated, written, dump_to, dump_with, dump,
}

-- The index of no file is above n.
abbrev pub IndicesUpTo : ℕ → Map Text File → Type 0
IndicesUpTo n files = All (λ (entry : Text × File). entry.1.index ≤ n) files

IndicesUpTo-insert_or_assign :
    (n : ℕ) (channel : Text) (file : File) (files : Map Text File)
    → file.index ≤ n
    → IndicesUpTo n files
    → IndicesUpTo n (insert_or_assign channel file files)
unfolding insert_or_assign
IndicesUpTo-insert_or_assign n channel file [] h a = (h, tt)
IndicesUpTo-insert_or_assign n channel file ((j, w) ∷ files) h a =
    ground (arith, IndicesUpTo-insert_or_assign n channel file files h a.1)

IndicesUpTo-find :
    (n : ℕ) (channel : Text) (file : File) (files : Map Text File)
    → IndicesUpTo n files
    → find channel files ≡ some file
    → file.index ≤ n
unfolding find
IndicesUpTo-find n channel file [] a h = cc
IndicesUpTo-find n channel file ((j, w) ∷ files) a h =
    ground (arith, IndicesUpTo-find n channel file files a.1)

is_full-le : (m : ℤ) (i : ℕ) → m ≢ negsuc 0 → is_full m i ≡ false → i ≤ to_u32 m
is_full-le (pos n) i h q = ground arith
is_full-le (negsuc zero) i h q = absurd (h refl)
is_full-le (negsuc (suc n)) i h q = ground arith

module _ (F : FileSystem) where
  -- Within the limit: its files, and max_files_ is as given.
  abbrev pub Within : ℤ → Option (FileSink F.State) → Type 0
  Within m none = Unit {0}
  Within m (some s) = (s.max_files ≡ m) × IndicesUpTo (to_u32 m + 1) s.current_files

  Within-opened :
      (s : FileSink F.State) (channel : Text) (index : ℕ) (m : ℤ) (made : ℕ × F.State)
      → Within m (some s)
      → index ≤ to_u32 m + 1
      → Within m (some (opened F s channel index made))
  Within-opened s channel index m (h, st) w le = (
    w.0,
    IndicesUpTo-insert_or_assign (to_u32 m + 1) channel (record { stream = some h; index = index })
        s.current_files le w.1,
  )

  Within-switch_to :
      (s : FileSink F.State) (channel : Text) (base : Option Text) (m : ℤ) (file : File)
      → Within m (some s)
      → find channel s.current_files ≡ some file
      → file.index ≤ to_u32 m
      → Within m (switch_to F s channel base)
  Within-switch_to s channel none m file w q le = tt
  Within-switch_to s channel (some base) m file w q le =
      subst (λ f. Within m (some (next_file F s channel base f))) (sym q)
        (Within-opened s channel ((file.index + 1) % 2 ^ 32) m
          (F.open_append (file_path s.log_path base ((file.index + 1) % 2 ^ 32))
            (closed F file.stream s.file_system))
          w (omega arith))

  Within-switch_stream :
      (env : Environment) (now : ℤ) (channel : Text) (s : FileSink F.State) (m : ℤ) (file : File)
      → Within m (some s)
      → find channel s.current_files ≡ some file
      → file.index ≤ to_u32 m
      → Within m (switch_stream F env now channel s)
  unfolding switch_stream
  Within-switch_stream env now channel s m file w q le =
      Within-switch_to s channel (base_name env now channel s) m file w q le

  module _ (env : Environment) (now : ℤ) (name : Text) where
    Within-with_file :
        (known : Bool) (s : FileSink F.State) (m : ℤ)
        → Within m (some s)
        → Within m (with_file F env now name known s)
    Within-with_file true s m w = w
    Within-with_file false s m w =
        let new = insert_or_assign name new_file s.current_files in
        Within-switch_stream env now name (record s { current_files = new }) m new_file
          (
            w.0,
            IndicesUpTo-insert_or_assign (to_u32 m + 1) name new_file s.current_files (omega arith)
                w.1,
          )
          (find-insert_or_assign_same name new_file s.current_files) (omega arith)

    Within-ensured :
        (separate : Bool) (s : FileSink F.State) (m : ℤ)
        → Within m (some s)
        → Within m (ensured F env now name separate s)
    Within-ensured false s m w = w
    Within-ensured true s m w = Within-with_file (has (find name s.current_files)) s m w

    Within-rotated :
        (rotate : Bool) (s : FileSink F.State) (m : ℤ) (file : File)
        → Within m (some s)
        → find name s.current_files ≡ some file
        → file.index ≤ to_u32 m
        → Within m (rotated F env now name rotate s)
    Within-rotated false s m file w q le = w
    Within-rotated true s m file w q le = Within-switch_stream env now name s m file w q le

    Within-write_line :
        (found : Option File) (line : Text) (s : FileSink F.State) (m : ℤ)
        → Within m (some s)
        → Within m (write_line F found line s)
    Within-write_line none line s m w = tt
    Within-write_line (some file) line s m w = w

    Within-formatted :
        (line : Option Text) (s : FileSink F.State) (m : ℤ)
        → Within m (some s)
        → Within m (formatted F name line s)
    Within-formatted none s m w = tt
    Within-formatted (some line) s m w = Within-write_line (find name s.current_files) line s m w

  module _ (env : Environment) (now : ℤ) (log : Log) (c : Channel) (ci global : ContextInfo) where
    Within-logged :
        (name : Text) (stream : Option Text) (made : Option (FileSink F.State)) (m : ℤ)
        → Within m made
        → Within m (logged F env name log c ci global stream made)
    Within-logged name stream none m w = tt
    Within-logged name none (some s) m w = w
    Within-logged name (some text) (some s) m w =
        Within-formatted env now name
          (formatted_log env s.base log c ci global s.disable_file_context_info) s m w

    Within-written :
        (name : Text) (file : File) (full : Bool) (s : FileSink F.State) (m : ℤ)
        → Within m (some s)
        → find name s.current_files ≡ some file
        → (full ≡ false → file.index ≤ to_u32 m)
        → Within m (written F env now name log c ci global file full s)
    Within-written name file true s m w q le = w
    Within-written name file false s m w q le =
        Within-logged name log.stream _ m (Within-rotated env now name _ s m file w q (le refl))

    Within-dump_to :
        (name : Text) (found : Option File) (s : FileSink F.State) (m : ℤ)
        → m ≢ negsuc 0
        → Within m (some s)
        → find name s.current_files ≡ found
        → Within m (dump_to F env now name log c ci global s found)
    Within-dump_to name none s m ne w q = tt
    Within-dump_to name (some file) s m ne w q =
        Within-written name file (is_full s.max_files file.index) s m w q
          (λ full. is_full-le m file.index ne (ap (λ x. is_full x file.index) (sym w.0) ∙ full))

    Within-dump_with :
        (name : Text) (made : Option (FileSink F.State)) (m : ℤ)
        → m ≢ negsuc 0
        → Within m made
        → Within m (dump_with F env now name log c ci global made)
    Within-dump_with name none m ne w = tt
    Within-dump_with name (some s) m ne w =
        Within-dump_to name (find name s.current_files) s m ne w refl

    -- If the number of files is limited and no index is more than one above the limit, that stays so
    -- whatever log is written.
    pub dump-Within :
        (s : FileSink F.State) (m : ℤ)
        → m ≢ negsuc 0
        → Within m (some s)
        → Within m (dump F env now log c ci global s)
    unfolding dump
    dump-Within s m ne w =
        Within-dump_with _ _ m ne (Within-ensured env now _ s.separate_channels_to_files s m w)
