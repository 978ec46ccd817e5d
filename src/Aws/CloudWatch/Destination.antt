-- ===== src/Aws/CloudWatch/Destination.antt =====
-- src/aws/cloudwatch-sink.cpp: init_context_info for a destination that the caller gives.
use octo_logger_cpp.Prelude.{
  ◌≡◌, refl, Bool, ◌&&◌, Option, some, if◌then◌else◌, Bool-cases, inl, inr,
}
use octo_logger_cpp.Prelude.Text.{Text, text_Eq, text_eq, codes}
use octo_logger_cpp.Prelude.Map.{Map, find, find-insert_or_assign}
use octo_logger_cpp.Prelude.Result.{Result}
use octo_logger_cpp.Context.{ContextInfo}
use octo_logger_cpp.Channel.{Log}
use octo_logger_cpp.Sink.{Environment, add_context_infos}
use octo_logger_cpp.Sink.Precedence.{IsPlain, value_of, find-add_context_infos}
use octo_logger_cpp.Sink.Destination.{Json, into_object, Filled, into_object-Filled}
use octo_logger_cpp.Aws.CloudWatch.Format.{add_thread_id, add_all}

unfoldable pub init_context_info_in :
    Environment → Bool → Log → ContextInfo → ContextInfo → Json → Result Json
init_context_info_in env log_thread_id log ci global dst =
    into_object (add_all env log_thread_id log ci global) dst

-- The value that a key has then, by what it had before.
abbrev pub value_in :
    Environment → Bool → Log → ContextInfo → ContextInfo → Text → Option Text → Option Text
value_in env log_thread_id log ci global k old =
    if log_thread_id && text_eq (codes "thread_id") k
    then some env.thread_id
    else value_of log ci global k old

find-add_thread_id :
    (env : Environment) (log_thread_id : Bool) (dst : Map Text Text) (k : Text)
    → find k (add_thread_id env log_thread_id dst)
      ≡ (if log_thread_id && text_eq (codes "thread_id") k then some env.thread_id else find k dst)
find-add_thread_id env log_thread_id dst k = elim (Bool-cases log_thread_id) [
  | inl y ↦ rw y (find-insert_or_assign (codes "thread_id") k env.thread_id dst)
  | inr n ↦ rw n refl
]

-- A destination that is null or an object of strings becomes an object, and one of another type is refused with the name
-- of its type. If no key has a NUL in it, a key's value there is: for thread_id the thread's id, if the sink
-- logs it; for session_id the log's extra identifier, if it is not empty; else the one it had in the
-- destination, else the log's, else the logger's, else the global one.
pub init_context_info_in-Filled :
    (env : Environment) (log_thread_id : Bool) (log : Log) (ci global : ContextInfo) (dst : Json)
    → IsPlain log.log_context_info
    → IsPlain ci
    → IsPlain global
    → Filled
        (value_in env log_thread_id log ci global)
        dst
        (init_context_info_in env log_thread_id log ci global dst)
unfolding init_context_info_in
init_context_info_in-Filled env log_thread_id log ci global dst a b c =
    into_object-Filled (value_in env log_thread_id log ci global)
      (add_all env log_thread_id log ci global) dst
      (λ before k.
        rw
          (
            find-add_thread_id env log_thread_id (add_context_infos log ci global before) k,
            find-add_context_infos log ci global before k a b c,
          )
          refl)
