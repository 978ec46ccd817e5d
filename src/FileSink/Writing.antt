-- ===== src/FileSink/Writing.antt =====
-- src/sinks/file-sink.cpp: where dump puts the text of a log.
use octo_logger_cpp.Prelude.{
  ◌≡◌, ◌≢◌, ℕ, refl, sym, ap, subst, Bool, true, false, Option, none, some,
}
use octo_logger_cpp.Prelude.Text.{Text, text_Eq, codes}
use octo_logger_cpp.Prelude.Int.{ℤ}
use octo_logger_cpp.Prelude.Map.{find, insert_or_assign, find-insert_or_assign_same, has}
use octo_logger_cpp.Context.{ContextInfo}
use octo_logger_cpp.Channel.{Channel, Log}
use octo_logger_cpp.Sink.{Environment, formatted_log}
use octo_logger_cpp.FileSink.{FileSystem, File, new_file, FileSink}
use octo_logger_cpp.FileSink.Streams.{
  is_full, base_of, base_name, opened, next_file, switch_to, switch_stream, with_file, ensured, put,
  write_line, formatted, logged, rotated, written, dump_to, dump_with, dump,
}

-- The file of the channel may still be written to.
abbrev IsFree : ℤ → Option File → Type 0
IsFree m none = ⊥
IsFree m (some file) = is_full m file.index ≡ false

-- Or else it is a channel's own file that does not exist yet, and will have the index 1.
abbrev pub HasRoom : ℤ → Bool → Option File → Type 0
HasRoom m separate (some file) = is_full m file.index ≡ false
HasRoom m true none = is_full m 1 ≡ false
HasRoom m false none = ⊥

HasRoom-IsFree : (m : ℤ) (found : Option File) → HasRoom m false found → IsFree m found
HasRoom-IsFree m none h = absurd h
HasRoom-IsFree m (some file) h = h

module _ (F : FileSystem) where
  -- The last thing done to the files was to write the line, and its end, to the stream of the channel.
  abbrev pub EndsWith : Text → F.State → Option File → Type 0
  EndsWith line st none = ⊥
  EndsWith line st (some file) =
      (before : F.State) × (st ≡ put F file.stream (codes "\n") (put F file.stream line before))

  -- dump has come to its end, and has written the line last.
  abbrev pub Writes : Text → Text → Option (FileSink F.State) → Type 0
  Writes name line none = ⊥
  Writes name line (some s) = EndsWith line s.file_system (find name s.current_files)

  Writes-write_line :
      (name line : Text) (s : FileSink F.State) (found : Option File)
      → find name s.current_files ≡ found
      → has found ≡ true
      → Writes name line (write_line F found line s)
  Writes-write_line name line s none q h = cc
  Writes-write_line name line s (some file) q h =
      subst (EndsWith line _) (sym q) (s.file_system, refl)

  module _ (env : Environment) (now : ℤ) (log : Log) (c : Channel) (ci global : ContextInfo) where
    -- What is written for the log, if it has any text.
    abbrev pub Formats : FileSink F.State → Text → Type 0
    Formats s line =
        (log.stream ≢ none)
        × (formatted_log env s.base log c ci global s.disable_file_context_info ≡ some line)

    Writes-formatted :
        (name line : Text) (s : FileSink F.State) (t : Option Text)
        → t ≡ some line
        → has (find name s.current_files) ≡ true
        → Writes name line (formatted F name t s)
    Writes-formatted name line s none q h = cc
    Writes-formatted name line s (some l) q h =
        subst (λ t. Writes name line (formatted F name t s)) (sym q)
          (Writes-write_line name line s (find name s.current_files) refl h)

    Writes-logged :
        (name line : Text) (s : FileSink F.State) (stream : Option Text)
        → stream ≢ none
        → formatted_log env s.base log c ci global s.disable_file_context_info ≡ some line
        → has (find name s.current_files) ≡ true
        → Writes name line (logged F env name log c ci global stream (some s))
    Writes-logged name line s none ne q h = absurd (ne refl)
    Writes-logged name line s (some text) ne q h = Writes-formatted name line s _ q h

    -- In a sink that has just opened the channel's file.
    Writes-opened :
        (name line : Text) (s : FileSink F.State) (index : ℕ) (made : ℕ × F.State)
        → Formats s line
        → Writes name line
            (logged F env name log c ci global log.stream (some (opened F s name index made)))
    Writes-opened name line s index (h, st) f =
        Writes-logged name line (opened F s name index (h, st)) log.stream f.0 f.1 (
          ap has (
            find-insert_or_assign_same name (record { stream = some h; index = index })
              s.current_files))

    Writes-switched :
        (name line base : Text) (s : FileSink F.State) (found : Option File)
        → Formats s line
        → Writes name line
            (logged F env name log c ci global log.stream (some (next_file F s name base found)))
    Writes-switched name line base s none f = Writes-opened name line s _ _ f
    Writes-switched name line base s (some file) f = Writes-opened name line s _ _ f

    Writes-rotated :
        (name line base : Text) (s : FileSink F.State) (rotate : Bool)
        → Formats s line
        → base_name env now name s ≡ some base
        → has (find name s.current_files) ≡ true
        → Writes name line
            (logged F env name log c ci global log.stream (rotated F env now name rotate s))
    unfolding switch_stream
    Writes-rotated name line base s false f b h = Writes-logged name line s log.stream f.0 f.1 h
    Writes-rotated name line base s true f b h =
        subst
          (λ t.
            Writes name line (logged F env name log c ci global log.stream (switch_to F s name t)))
          (sym b) (Writes-switched name line base s (find name s.current_files) f)

    Writes-written :
        (name line base : Text) (s : FileSink F.State) (file : File) (full : Bool)
        → Formats s line
        → base_name env now name s ≡ some base
        → has (find name s.current_files) ≡ true
        → full ≡ false
        → Writes name line (written F env now name log c ci global file full s)
    Writes-written name line base s file true f b h q = cc
    Writes-written name line base s file false f b h q = Writes-rotated name line base s _ f b h

    Writes-dump_to :
        (name line base : Text) (s : FileSink F.State) (found : Option File)
        → Formats s line
        → base_name env now name s ≡ some base
        → find name s.current_files ≡ found
        → IsFree s.max_files found
        → Writes name line (dump_to F env now name log c ci global s found)
    Writes-dump_to name line base s none f b q h = absurd h
    Writes-dump_to name line base s (some file) f b q h =
        Writes-written name line base s file _ f b (ap has q) h

    Writes-new :
        (name line base : Text) (s : FileSink F.State) (index : ℕ) (made : ℕ × F.State)
        → Formats s line
        → base_name env now name s ≡ some base
        → is_full s.max_files index ≡ false
        → Writes name line
            (dump_with F env now name log c ci global (some (opened F s name index made)))
    unfolding base_name
    Writes-new name line base s index (h, st) f b q =
        let file : File = record { stream = some h; index = index } in
        let found = find-insert_or_assign_same name file s.current_files in
        Writes-dump_to name line base (opened F s name index (h, st)) _ f b refl
          (subst (IsFree s.max_files) (sym found) q)

    Writes-with_file :
        (name line base : Text) (s : FileSink F.State) (found : Option File)
        → Formats s line
        → base_name env now name s ≡ some base
        → find name s.current_files ≡ found
        → HasRoom s.max_files true found
        → Writes name line
            (dump_with F env now name log c ci global (with_file F env now name (has found) s))
    unfolding switch_stream base_name
    Writes-with_file name line base s (some file) f b q h =
        Writes-dump_to name line base s _ f b refl (subst (IsFree s.max_files) (sym q) h)
    Writes-with_file name line base s none f b q h =
        let s' : FileSink F.State = record s {
          current_files = insert_or_assign name new_file s.current_files;
        } in
        subst
          (λ t. Writes name line (dump_with F env now name log c ci global (switch_to F s' name t)))
          (sym b)
          (subst
            (λ t.
              Writes name line
                (dump_with F env now name log c ci global (some (next_file F s' name base t))))
            (sym (find-insert_or_assign_same name new_file s.current_files))
            (Writes-new name line base s' 1 _ f b h))

    Writes-ensured :
        (name line base : Text) (s : FileSink F.State) (separate : Bool)
        → Formats s line
        → base_name env now name s ≡ some base
        → HasRoom s.max_files separate (find name s.current_files)
        → Writes name line
            (dump_with F env now name log c ci global (ensured F env now name separate s))
    Writes-ensured name line base s false f b h =
        Writes-dump_to name line base s _ f b refl (HasRoom-IsFree s.max_files _ h)
    Writes-ensured name line base s true f b h =
        Writes-with_file name line base s (find name s.current_files) f b refl h

    -- A log with text, of a channel whose file has room, is written: dump ends, and the last it does to
    -- the disk is to put the line and its end into the stream that the channel then has.
    pub dump-Writes :
        (s : FileSink F.State) (name line base : Text)
        → name ≡ base_of s.separate_channels_to_files c.channel_name s.combined_channels_prefix
        → Formats s line
        → base_name env now name s ≡ some base
        → HasRoom s.max_files s.separate_channels_to_files (find name s.current_files)
        → Writes name line (dump F env now log c ci global s)
    unfolding dump
    dump-Writes s name line base e f b h =
        subst
          (λ n. Writes name line (
            dump_with F env now n log c ci global
              (ensured F env now n s.separate_channels_to_files s)))
          e (Writes-ensured name line base s s.separate_channels_to_files f b h)
