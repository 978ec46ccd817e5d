-- ===== src/Sink/Reports.antt =====
-- src/sink.cpp: the message about an illegal line format, which the process prints once.
use octo_logger_cpp.Prelude.{
  ◌≡◌, refl, ap, Bool, true, false, Option, List, [], ◌∷◌, ◌++◌, ◌∙◌, append-nil, ℕ,
}
use octo_logger_cpp.Prelude.Text.{Text, codes}
use octo_logger_cpp.Prelude.Decimal.{decimal}
use octo_logger_cpp.Context.{ContextInfo}
use octo_logger_cpp.Channel.{Channel, Log}
use octo_logger_cpp.Sink.{
  LineFormat, plaintext_long, plaintext_short, json, illegal, Sink, Environment, formatted_log,
}

abbrev pub illegal_format_message : ℕ → Text
illegal_format_message n =
    ((codes "Unexpected Error Occurred - received illegal line format: [" ++ decimal n)
      ++ codes "] falling back to PLAINTEXT_LONG")
    ++ codes "\n"

-- What goes to std::cerr, and error_logged after it.
abbrev pub reported : LineFormat → Bool → Text × Bool
reported (illegal n) false = (illegal_format_message n, true)
reported (illegal n) true = ([], true)
reported plaintext_long error_logged = ([], error_logged)
reported plaintext_short error_logged = ([], error_logged)
reported json error_logged = ([], error_logged)

-- formatted_log with what it writes to std::cerr and the static error_logged.
unfoldable pub formatted_log_reporting :
    Environment
    → Sink
    → Log
    → Channel
    → ContextInfo
    → ContextInfo
    → Bool
    → Bool
    → Option Text × (Text × Bool)
formatted_log_reporting env s log c ci global disable_context_info error_logged =
    (formatted_log env s log c ci global disable_context_info, reported s.format error_logged)

-- What a sequence of calls writes to std::cerr, by the line formats of the sinks.
abbrev pub reported_all : List LineFormat → Bool → Text
reported_all [] error_logged = []
reported_all (f ∷ formats) error_logged =
    let (text, now_logged) = reported f error_logged in text ++ reported_all formats now_logged

-- The message for the first illegal format.
abbrev first_report : List LineFormat → Text
first_report [] = []
first_report (illegal n ∷ formats) = illegal_format_message n
first_report (plaintext_long ∷ formats) = first_report formats
first_report (plaintext_short ∷ formats) = first_report formats
first_report (json ∷ formats) = first_report formats

reported_all_logged : (formats : List LineFormat) → reported_all formats true ≡ []
reported_all_logged [] = refl
reported_all_logged (illegal n ∷ formats) = reported_all_logged formats
reported_all_logged (plaintext_long ∷ formats) = reported_all_logged formats
reported_all_logged (plaintext_short ∷ formats) = reported_all_logged formats
reported_all_logged (json ∷ formats) = reported_all_logged formats

-- The calls of a process together write one message, for the first illegal format, or nothing.
pub reported_all_lem :
    (formats : List LineFormat) → reported_all formats false ≡ first_report formats
reported_all_lem [] = refl
reported_all_lem (illegal n ∷ formats) =
    ap (λ t. illegal_format_message n ++ t) (reported_all_logged formats)
    ∙ append-nil (illegal_format_message n)
reported_all_lem (plaintext_long ∷ formats) = reported_all_lem formats
reported_all_lem (plaintext_short ∷ formats) = reported_all_lem formats
reported_all_lem (json ∷ formats) = reported_all_lem formats
