-- ===== src/Sink/Formats.antt =====
-- formatted_log ends with a text in every format, and what that text has of the log.
use octo_logger_cpp.Prelude.{
  ◌≡◌, refl, ap, sym, ◌∙◌, Bool, true, false, not, ◌&&◌, Option, none, some, [], ◌++◌, append_assoc,
  append-nil, Option-cases, inl, inr, ◌⊎◌, ◌%◌, ◌/◌,
}
use octo_logger_cpp.Prelude.Text.{Text, codes}
use octo_logger_cpp.Prelude.Int.{pos}
use octo_logger_cpp.Level.{LogLevel, level_to_string_short, level_to_string_upper}
use octo_logger_cpp.Compat.{Tm, zero_tm, localtime}
use octo_logger_cpp.Context.{ContextInfo, empty}
use octo_logger_cpp.Channel.{Channel, Log}
use octo_logger_cpp.Sink.{
  Sink, by_format, LineFormat, plaintext_long, plaintext_short, json, illegal, Environment, LogJson,
  stream_text, head_text, bracketed, with_context, formatted_log_plaintext_long,
  formatted_log_plaintext_short, formatted_context_info, construct_log_json, dump_json, dumped,
  formatted_log, fill_3,
}

-- The text t has the text m in it.
abbrev pub Has : Text → Text → Type 0
Has m t = (a : Text) × (b : Text) × (t ≡ (a ++ m) ++ b)

-- A line that has m in it, or none at all.
abbrev pub IsLine : Text → Option Text → Type 0
IsLine m o = (t : Text) × (o ≡ some t) × Has m t

head_text-IsLine :
    (time ids : Text) (log : Log) (c : Channel) (short : Text)
    → IsLine (stream_text log.stream) (head_text time ids log c (some short))
head_text-IsLine time ids log c short =
    let front =
      ((((time ++ codes "][") ++ short) ++ codes "][") ++ c.channel_name)
      ++ ((ids ++ bracketed log.extra_identifier) ++ codes ": ") in
    (
      front ++ stream_text log.stream,
      refl,
      (front, [], sym (append-nil (front ++ stream_text log.stream))),
    )

with_context-IsLine :
    (b : Bool) (ci m : Text) (o : Option Text) → IsLine m o → IsLine m (with_context b ci o)
with_context-IsLine b ci m none (t, e, h) = cc
with_context-IsLine true ci m (some line) (t, e, (x, y, h)) = (
  (line ++ codes "\n") ++ ci,
  refl,
  (
    x,
    y ++ (codes "\n" ++ ci),
    append_assoc line (codes "\n") ci
        ∙ ap (λ r. r ++ (codes "\n" ++ ci)) (some_line e ∙ h)
        ∙ append_assoc (x ++ m) y (codes "\n" ++ ci),
  ),
)
  where
    some_line : {l t : Text} → some l ≡ some t → l ≡ t
    some_line q = cc
with_context-IsLine false ci m (some line) h = h

module _ (env : Environment) (log : Log) (c : Channel) (ci global : ContextInfo) (short : Text)
    (named : level_to_string_short log.log_level ≡ some short) where
  long-IsLine :
      (s : Sink) (disable_context_info : Bool) (tm : Tm)
      → localtime env.localtime_r (pos (log.time_created / 1000)) zero_tm s.safe_localtime_utc
        ≡ some tm
      → IsLine
          (stream_text log.stream)
          (formatted_log_plaintext_long env s log c ci global disable_context_info)
  unfolding formatted_log_plaintext_long
  long-IsLine s d tm e =
      rw (e, named)
        (with_context-IsLine
          (not d && not (empty ci && (empty log.log_context_info && empty global)))
          (formatted_context_info log ci global) (stream_text log.stream)
          (head_text
            ((env.strftime (codes "[%d/%m/%Y %H:%M:%S") tm ++ codes ".")
              ++ fill_3 (log.time_created % 1000))
            ((((codes "][PID(" ++ env.process_id) ++ codes ")][TID(") ++ env.thread_id)
              ++ codes ")]")
            log c (some short))
          (head_text-IsLine
            ((env.strftime (codes "[%d/%m/%Y %H:%M:%S") tm ++ codes ".")
              ++ fill_3 (log.time_created % 1000))
            ((((codes "][PID(" ++ env.process_id) ++ codes ")][TID(") ++ env.thread_id)
              ++ codes ")]")
            log c short))

  short-IsLine : IsLine (stream_text log.stream) (formatted_log_plaintext_short env log c)
  unfolding formatted_log_plaintext_short
  short-IsLine = rw named (
      head_text-IsLine ((codes "[MS(" ++ fill_3 (log.time_created % 1000)) ++ codes ")")
        ((codes "][TID(" ++ env.thread_id) ++ codes ")]") log c short)

upper_named :
    (l : LogLevel) (short : Text)
    → level_to_string_short l ≡ some short
    → (upper : Text) × (level_to_string_upper l ≡ some upper)
unfolding level_to_string_short level_to_string_upper
upper_named (LogLevel.unnamed n) short e = cc
upper_named LogLevel.trace short e = (codes "TRACE", refl)
upper_named LogLevel.debug short e = (codes "DEBUG", refl)
upper_named LogLevel.info short e = (codes "INFO", refl)
upper_named LogLevel.notice short e = (codes "NOTICE", refl)
upper_named LogLevel.warning short e = (codes "WARNING", refl)
upper_named LogLevel.error short e = (codes "ERROR", refl)
upper_named LogLevel.quiet short e = (codes "QUIET", refl)

-- The text of the log's JSON object, which has the message.
abbrev pub IsJson : Environment → Text → Option Text → Type 0
IsJson env m o =
    (j : LogJson) × (j.message ≡ m) × (env.json_dump j ≡ o) × ((t : Text) × (o ≡ some t))

dumped-IsLine :
    (env : Environment) (j : LogJson) (m : Text) (long : Option Text)
    → j.message ≡ m
    → IsLine m long
    → IsJson env m (dumped (env.json_dump j) long) ⊎ IsLine m (dumped (env.json_dump j) long)
dumped-IsLine env j m long e h = elim (Option-cases (env.json_dump j)) [
  | inl n ↦ rw n (inr h)
  | inr (t, d) ↦ rw d (inl (j, e, d, (t, refl)))
]

by_format-IsLine :
    (env : Environment) (f : LineFormat) (m : Text) (long short js : Option Text)
    → IsLine m long
    → IsLine m short
    → IsJson env m js ⊎ IsLine m js
    → ((f ≡ json) × IsJson env m (by_format f long short js)) ⊎ IsLine m (by_format f long short js)
by_format-IsLine env plaintext_long m long short js l s j = inr l
by_format-IsLine env plaintext_short m long short js l s j = inr s
by_format-IsLine env json m long short js l s (inl j) = inl (refl, j)
by_format-IsLine env json m long short js l s (inr j) = inr j
by_format-IsLine env (illegal n) m long short js l s j = inr l

-- In every format, an illegal one too, and whether the JSON library throws or not, formatted_log of a
-- log whose level has a name ends with a text, if the time can be told: that text is a line that has the
-- message in it, or in the JSON format it may be the text of a JSON object that has the message.
pub formatted_log_lem :
    (env : Environment) (s : Sink) (log : Log) (c : Channel) (ci global : ContextInfo) (d : Bool)
    (short : Text) (tm : Tm)
    → level_to_string_short log.log_level ≡ some short
    → localtime env.localtime_r (pos (log.time_created / 1000)) zero_tm s.safe_localtime_utc
      ≡ some tm
    → ((s.format ≡ json)
        × IsJson env (stream_text log.stream) (formatted_log env s log c ci global d))
      ⊎ IsLine (stream_text log.stream) (formatted_log env s log c ci global d)
unfolding formatted_log construct_log_json
formatted_log_lem env s log c ci global d short tm named e =
    let long = formatted_log_plaintext_long env s log c ci global d in
    let long-has = long-IsLine env log c ci global short named s d tm e in
    let (upper, u) = upper_named log.log_level short named in
    by_format-IsLine env s.format (stream_text log.stream) long
      (formatted_log_plaintext_short env log c)
      (dump_json env (construct_log_json env s log c ci global) long) long-has
      (short-IsLine env log c ci global short named)
      (rw u (dumped-IsLine env _ (stream_text log.stream) long refl long-has))
