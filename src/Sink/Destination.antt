-- ===== src/Sink/Destination.antt =====
-- src/sink.cpp: init_context_info_impl for a destination that the caller gives, and what it leaves there.
use octo_logger_cpp.Prelude.{◌≡◌, refl, Option, [], ◌++◌}
use octo_logger_cpp.Prelude.Text.{Text, text_Eq, codes}
use octo_logger_cpp.Prelude.Map.{Map, find}
use octo_logger_cpp.Prelude.Result.{Result, ok, throw, runtime_error}
use octo_logger_cpp.Context.{ContextInfo}
use octo_logger_cpp.Channel.{Log}
use octo_logger_cpp.Sink.{add_context_infos}
use octo_logger_cpp.Sink.Precedence.{IsPlain, value_of, find-add_context_infos}

-- A JSON value: null, an object (with strings for values, as init_context_info makes them), or a value of
-- another type with the name that type_name() has for it.
pub data Json : Type 0 where
  null : Json
  object : Map Text Text → Json
  other : Text → Json

-- The switch over the type, and what is done to an object.
abbrev pub into_object : (Map Text Text → Map Text Text) → Json → Result Json
into_object add null = ok (object (add []))
into_object add (object dst) = ok (object (add dst))
into_object add (other name) =
    throw (runtime_error (codes "Wrong context_info destination type " ++ name))

unfoldable pub init_context_info_impl : Log → ContextInfo → ContextInfo → Json → Result Json
init_context_info_impl log ci global dst = into_object (add_context_infos log ci global) dst

-- An object in which each key has the value that `value` says, by the key and what it had before.
module _ (value : Text → Option Text → Option Text) where
  pub record FilledFrom (before : Map Text Text) (r : Result Json) : Type 0 where
    pub entries : Map Text Text
    pub returned : r ≡ ok (object entries)
    pub values : (k : Text) → find k entries ≡ value k (find k before)

  -- An object is filled, and null as an empty one; the others are refused by the name of their type.
  abbrev pub Filled : Json → Result Json → Type 0
  Filled null r = FilledFrom [] r
  Filled (object before) r = FilledFrom before r
  Filled (other name) r =
      r ≡ throw (runtime_error (codes "Wrong context_info destination type " ++ name))

  pub into_object-Filled :
      (add : Map Text Text → Map Text Text) (dst : Json)
      → ((before : Map Text Text) (k : Text) → find k (add before) ≡ value k (find k before))
      → Filled dst (into_object add dst)
  into_object-Filled add null h = record { entries = add []; returned = refl; values = h [] }
  into_object-Filled add (object before) h = record {
    entries = add before;
    returned = refl;
    values = h before;
  }
  into_object-Filled add (other name) h = refl

-- A destination that is null or an object of strings becomes an object, and one of another type is refused
-- with the name of its type. If no key has a NUL in it, a key's value there is the log's extra identifier for
-- session_id, if it is not empty; else the one it had in the destination, else the log's own, else the
-- logger's, else the global one.
pub init_context_info_impl-Filled :
    (log : Log) (ci global : ContextInfo) (dst : Json)
    → IsPlain log.log_context_info
    → IsPlain ci
    → IsPlain global
    → Filled (value_of log ci global) dst (init_context_info_impl log ci global dst)
unfolding init_context_info_impl
init_context_info_impl-Filled log ci global dst a b c =
    into_object-Filled (value_of log ci global) (add_context_infos log ci global) dst
      (λ before k. find-add_context_infos log ci global before k a b c)
