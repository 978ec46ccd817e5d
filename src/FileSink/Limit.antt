-- ===== src/FileSink/Limit.antt =====
-- src/sinks/file-sink.cpp: the limit on the number of files, over any sequence of logs.
use octo_logger_cpp.Prelude.{
  ℕ, ◌≤◌, ◌<◌, ltb, sym, subst, Bool, Bool-cases, inl, inr, ◌⊎◌, arith, ◌≡◌, ◌≢◌, refl, ap, ◌∙◌,
  true, false, Option, none, some, List, [], ◌∷◌, ◌>>=◌,
}
use octo_logger_cpp.Prelude.Text.{Text, text_Eq}
use octo_logger_cpp.Prelude.Int.{ℤ, pos, negsuc}
use octo_logger_cpp.Prelude.Map.{find}
use octo_logger_cpp.Context.{ContextInfo}
use octo_logger_cpp.Channel.{Channel, Log}
use octo_logger_cpp.Sink.{Environment}
use octo_logger_cpp.FileSink.{FileSystem, File, FileSink}
use octo_logger_cpp.FileSink.Writing.{HasRoom, Formats, Writes, dump-Writes}
use octo_logger_cpp.FileSink.Streams.{
  is_full, base_name, base_of, ensured, written, dump_to, dump_with, dump,
}
use octo_logger_cpp.FileSink.Rotation.{Within, dump-Within}

-- One call of dump, with the time of it.
pub record Call : Type 0 where
  pub now : ℤ
  pub log : Log
  pub channel : Channel
  pub context_info : ContextInfo
  pub global_context_info : ContextInfo

module _ (F : FileSystem) (env : Environment) where
  abbrev pub dump_call : Call → FileSink F.State → Option (FileSink F.State)
  dump_call call s =
      dump F env call.now call.log call.channel call.context_info call.global_context_info s

  abbrev pub dumps : List Call → FileSink F.State → Option (FileSink F.State)
  dumps [] s = some s
  dumps (call ∷ calls) s = dump_call call s >>= dumps calls

  Within-bind :
      (m : ℤ) (made : Option (FileSink F.State))
      (rest : FileSink F.State → Option (FileSink F.State))
      → ((s : FileSink F.State) → Within F m (some s) → Within F m (rest s))
      → Within F m made
      → Within F m (made >>= rest)
  Within-bind m none rest h w = tt
  Within-bind m (some s) rest h w = h s w

  -- If max_files_ is not -1 and no file's index is more than one above it, that stays so through every
  -- sequence of calls of dump, for as long as the calls return.
  pub dumps-Within :
      (calls : List Call) (s : FileSink F.State) (m : ℤ)
      → m ≢ negsuc 0
      → Within F m (some s)
      → Within F m (dumps calls s)
  dumps-Within [] s m ne w = w
  dumps-Within (call ∷ calls) s m ne w =
      Within-bind m (dump_call call s) (dumps calls) (λ s' w'. dumps-Within calls s' m ne w')
        (dump-Within F env call.now call.log call.channel call.context_info call.global_context_info
          s m ne w)

  ensured_found :
      (now : ℤ) (name : Text) (separate : Bool) (s : FileSink F.State) (file : File)
      → find name s.current_files ≡ some file
      → ensured F env now name separate s ≡ some s
  ensured_found now name false s file q = refl
  ensured_found now name true s file q = rw q refl

  -- A log whose channel has a file above the limit is dropped.
  dump_full :
      (call : Call) (s : FileSink F.State) (name : Text) (file : File)
      → name
        ≡ base_of s.separate_channels_to_files call.channel.channel_name s.combined_channels_prefix
      → find name s.current_files ≡ some file
      → is_full s.max_files file.index ≡ true
      → dump_call call s ≡ some s
  unfolding dump
  dump_full call s name file e q full =
      let then_with =
        dump_with F env call.now name call.log call.channel call.context_info
          call.global_context_info in
      ap
        (λ n.
          dump_with F env call.now n call.log call.channel call.context_info
            call.global_context_info (ensured F env call.now n s.separate_channels_to_files s))
        (sym e)
      ∙ ap then_with (ensured_found call.now name s.separate_channels_to_files s file q)
      ∙ ap
          (dump_to F env call.now name call.log call.channel call.context_info
            call.global_context_info s)
          q
      ∙ ap
          (λ b.
            written F env call.now name call.log call.channel call.context_info
              call.global_context_info file b s)
          full

  -- With max_files_ at n, not negative, a log with text, of a channel that has a file, is dropped if the
  -- file's index is above n: no file is opened, closed or written to. If not, dump ends, and the last it does
  -- to the disk is to put the line into the stream that the channel then has. (The line and the time can be
  -- formatted.)
  pub dump_limit :
      (call : Call) (s : FileSink F.State) (name line base : Text) (file : File) (n : ℕ)
      → s.max_files ≡ pos n
      → n ≤ 2147483647
      → name
        ≡ base_of s.separate_channels_to_files call.channel.channel_name s.combined_channels_prefix
      → find name s.current_files ≡ some file
      → Formats F env call.now call.log call.channel call.context_info call.global_context_info s
          line
      → base_name env call.now name s ≡ some base
      → ((n < file.index) × (dump_call call s ≡ some s))
        ⊎ ((file.index ≤ n) × Writes F name line (dump_call call s))
  dump_limit call s name line base file n m le e q f b = elim (Bool-cases (ltb n file.index)) [
    | inl y ↦ inl (ground (arith, y), dump_full call s name file e q (rw m (ground (arith, y, le))))
    | inr y ↦ inr (
      ground (arith, y),
      dump-Writes F env call.now call.log call.channel call.context_info call.global_context_info s
          name line base e f b
          (subst (HasRoom s.max_files s.separate_channels_to_files) (sym q)
            (rw m (ground (arith, y, le)))),
    )
  ]
