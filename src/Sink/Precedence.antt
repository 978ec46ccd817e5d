-- ===== src/Sink/Precedence.antt =====
-- Which value a key has in the JSON object of a log.
use octo_logger_cpp.Prelude.{
  ◌≡◌, refl, ap, ◌∙◌, not, ◌&&◌, Option, none, some, [], ◌∷◌, if◌then◌else◌, Bool-cases, inl, inr,
  arith, All,
}
use octo_logger_cpp.Prelude.Text.{Text, text_Eq, text_eq, text_eq_iff, codes, is_empty}
use octo_logger_cpp.Prelude.Map.{
  Map, find, insert_or_assign, find-insert_or_assign, contains-find, has,
}
use octo_logger_cpp.Prelude.Map
use octo_logger_cpp.Context.{ContextInfo}
use octo_logger_cpp.Context.Laws.{or_else}
use octo_logger_cpp.Channel.{Log, until_nul}
use octo_logger_cpp.Sink.{add_missing, add_context_infos, init_context_info}

-- No key has a NUL in it.
abbrev pub IsPlain : ContextInfo → Type 0
IsPlain ci = All (λ (e : Text × Text). until_nul e.0 ≡ e.0) ci

or_else-none : (o : Option Text) → o ≡ or_else o none
or_else-none none = refl
or_else-none (some v) = refl

or_else_assoc : (a b c : Option Text) → or_else (or_else a b) c ≡ or_else a (or_else b c)
or_else_assoc none b c = refl
or_else_assoc (some v) b c = refl

find-add_missing :
    (k : Text) (ci : ContextInfo) (dst : Map Text Text)
    → IsPlain ci
    → find k (add_missing ci dst) ≡ or_else (find k dst) (find k ci)
unfolding add_missing find
find-add_missing k [] dst h = or_else-none (find k dst)
find-add_missing k ((j, v) ∷ ci) dst h = ground (
  arith,
  h.0,
  find-add_missing k ci (if Map.contains j dst then dst else insert_or_assign (until_nul j) v dst)
      h.1,
  find-insert_or_assign j k v dst,
  contains-find j dst,
  text_eq_iff j k,
)

-- The value that a key has then: the extra identifier for session_id if it is not empty, else the one there
-- was, else the log's, else the logger's, else the global one.
abbrev pub value_of : Log → ContextInfo → ContextInfo → Text → Option Text → Option Text
value_of log ci global k old =
    if not (is_empty log.extra_identifier) && text_eq (codes "session_id") k
    then some log.extra_identifier
    else or_else old (or_else (find k log.log_context_info) (or_else (find k ci) (find k global)))

pub find-add_context_infos :
    (log : Log) (ci global : ContextInfo) (dst : Map Text Text) (k : Text)
    → IsPlain log.log_context_info
    → IsPlain ci
    → IsPlain global
    → find k (add_context_infos log ci global dst) ≡ value_of log ci global k (find k dst)
find-add_context_infos log ci global dst k a b c =
    let own = add_missing log.log_context_info dst in
    let both = add_missing ci own in
    let all : find k (add_missing global both)
        ≡ or_else (find k dst)
            (or_else (find k log.log_context_info) (or_else (find k ci) (find k global))) =
      find-add_missing k global both c
      ∙ ap (λ o. or_else o (find k global))
          (find-add_missing k ci own b
            ∙ ap (λ o. or_else o (find k ci)) (find-add_missing k log.log_context_info dst a))
      ∙ or_else_assoc (or_else (find k dst) (find k log.log_context_info)) (find k ci)
          (find k global)
      ∙ or_else_assoc (find k dst) (find k log.log_context_info)
          (or_else (find k ci) (find k global)) in
    elim (Bool-cases (is_empty log.extra_identifier)) [
      | inl e ↦ rw e all
      | inr n ↦
          rw
            (
              n,
              find-insert_or_assign (codes "session_id") k log.extra_identifier
                  (add_missing global both),
              all,
            )
            refl
    ]

-- If no key has a NUL in it, a key's value in the JSON object of a log is the log's own if it has one
-- there, else the logger's, else the global one; but an extra identifier that is not empty is the
-- value of session_id, whatever the context infos have there.
init_context_info_lem :
    (log : Log) (ci global : ContextInfo) (k : Text)
    → IsPlain log.log_context_info
    → IsPlain ci
    → IsPlain global
    → find k (init_context_info log ci global) ≡ (
        if not (is_empty log.extra_identifier) && text_eq (codes "session_id") k
        then some log.extra_identifier
        else or_else (find k log.log_context_info) (or_else (find k ci) (find k global)))
unfolding init_context_info find
init_context_info_lem log ci global k a b c = find-add_context_infos log ci global [] k a b c
