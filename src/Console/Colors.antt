-- ===== src/Console/Colors.antt =====
-- src/sinks/console-sink.cpp: what the colours change.
use octo_logger_cpp.Prelude.{
  ◌≡◌, ℕ, zero, suc, refl, sym, ap, ◌∙◌, true, false, Option, none, some, [], ◌∷◌, ◌++◌, ◌==◌,
  if◌then◌else◌, append_assoc,
}
use octo_logger_cpp.Prelude.Text.{Text, codes, Lacks}
use octo_logger_cpp.Level.{LogLevel, trace, debug, info, notice, warning, error, quiet, unnamed}
use octo_logger_cpp.Context.{ContextInfo}
use octo_logger_cpp.Channel.{Channel, Log}
use octo_logger_cpp.Sink.{Environment, formatted_log}
use octo_logger_cpp.Console.{ConsoleSink, color_reset, configure_log_color, line, if_streamed, dump}

-- A terminal without colours: each escape byte, and the four bytes after it, are taken out. The number is
-- that of the bytes that are still to be taken out.
abbrev pub without_colors : ℕ → Text → Text
without_colors n [] = []
without_colors (suc n) (c ∷ s) = without_colors n s
without_colors zero (c ∷ s) =
    let kept = without_colors 0 s in
    let cut = without_colors 4 s in if c == 27 then cut else c ∷ kept

abbrev pub seen : Option Text → Option Text
seen none = none
seen (some text) = some (without_colors 0 text)

-- A log's own text has no escape byte.
abbrev pub NoEscape : Option Text → Type 0
NoEscape none = Unit {0}
NoEscape (some text) = Lacks 27 text

without_colors-Lacks :
    (s t : Text) → Lacks 27 s → without_colors 0 (s ++ t) ≡ s ++ without_colors 0 t
without_colors-Lacks [] t h = refl
without_colors-Lacks (c ∷ s) t h = rw (h.0, without_colors-Lacks s t h.1)

without_colors-configure_log_color :
    (level : LogLevel) (s : Text)
    → without_colors 0 (configure_log_color level ++ s) ≡ without_colors 0 s
unfolding configure_log_color
without_colors-configure_log_color trace s = refl
without_colors-configure_log_color debug s = refl
without_colors-configure_log_color info s = refl
without_colors-configure_log_color notice s = refl
without_colors-configure_log_color warning s = refl
without_colors-configure_log_color error s = refl
without_colors-configure_log_color quiet s = refl
without_colors-configure_log_color (unnamed n) s = refl

line-seen :
    (level : LogLevel) (text : Option Text)
    → NoEscape text
    → seen (line false level text) ≡ line true level text
line-seen level none h = refl
line-seen level (some text) h =
    let colored = configure_log_color level in
    let tail = color_reset ++ codes "\n" in
    let e : ((colored ++ text) ++ color_reset) ++ codes "\n" ≡ colored ++ (text ++ tail) =
      append_assoc (colored ++ text) color_reset (codes "\n") ∙ append_assoc colored text tail in
    let plain : without_colors 0 (text ++ tail) ≡ (text ++ []) ++ codes "\n" =
      without_colors-Lacks text tail h ∙ sym (append_assoc text [] (codes "\n")) in
    ap (λ t. some (without_colors 0 t)) e
    ∙ ap some (without_colors-configure_log_color level (text ++ tail) ∙ plain)

if_streamed-seen :
    (stream t u : Option Text) → seen t ≡ u → seen (if_streamed stream t) ≡ if_streamed stream u
if_streamed-seen none t u q = refl
if_streamed-seen (some text) t u q = q

-- If the text of a log has no escape byte, a sink that writes colours shows on a terminal without them
-- what a sink writes that has them disabled.
pub dump-seen :
    (env : Environment) (log : Log) (c : Channel) (ci global : ContextInfo) (s : ConsoleSink)
    → s.disable_console_color ≡ false
    → NoEscape (formatted_log env s.base log c ci global s.disable_console_context_info)
    → seen (dump env log c ci global s)
      ≡ dump env log c ci global (record s { disable_console_color = true })
unfolding dump
dump-seen env log c ci global s h n =
    let text = formatted_log env s.base log c ci global s.disable_console_context_info in
    ap (λ b. seen (if_streamed log.stream (line b log.log_level text))) h
    ∙ if_streamed-seen log.stream _ _ (line-seen log.log_level text n)
