-- ===== src/Context.antt =====
-- src/context-info.cpp and include/octo-logger-cpp/context-info.hpp. A key is a std::string_view; it
-- is taken to view a whole string that lives on, as the code's own uses of key.data() ask.
pub mod Laws
pub mod Equality
pub mod Abstract
mod Tests
use octo_logger_cpp.Prelude.{
  ℕ, Bool, true, false, ◌&&◌, Option, none, some, List, [], ◌∷◌, ◌==◌, length, if◌then◌else◌,
}
use octo_logger_cpp.Prelude.Text.{Text, text_eq, text_Eq}
use octo_logger_cpp.Prelude.Map.{Map, find, insert_or_assign}
use octo_logger_cpp.Prelude.Map
use octo_logger_cpp.Prelude.Result.{Result, ok, throw, out_of_range}

abbrev pub ContextInfo : Type 0
ContextInfo = Map Text Text

-- std::unordered_map(initializer_list): of two entries with one key the first is kept.
insert_all : List (Text × Text) → ContextInfo → ContextInfo
insert_all [] ci = ci
insert_all ((k, v) ∷ init) ci =
    insert_all init (if Map.contains k ci then ci else insert_or_assign k v ci)

unfoldable pub of_list : List (Text × Text) → ContextInfo
unfolding insert_all
of_list init = insert_all init []

unfoldable pub update_key : Text → Text → ContextInfo → ContextInfo
update_key key v ci = insert_or_assign key v ci

-- update(other): each entry of `other` is written over the entry with its key.
unfoldable pub update : ContextInfo → ContextInfo → ContextInfo
update ci [] = ci
update ci ((k, v) ∷ other) = update (update_key k v ci) other

unfoldable pub erase : Text → ContextInfo → ContextInfo
erase key ci = Map.erase key ci

unfoldable pub empty : ContextInfo → Bool
empty [] = true
empty (x ∷ ci) = false

unfoldable pub contains : Text → ContextInfo → Bool
contains key ci = Map.contains key ci

value_or_throw : Option Text → Result Text
value_or_throw (some v) = ok v
value_or_throw none = throw out_of_range

unfoldable pub at : Text → ContextInfo → Result Text
unfolding value_or_throw
at key ci = value_or_throw (find key ci)

unfoldable pub clear : ContextInfo → ContextInfo
clear ci = []

-- operator== of two unordered maps: as many entries, and each one is found in the other.
unfoldable pub found_as : Option Text → Text → Bool
found_as none v = false
found_as (some w) v = text_eq w v

unfoldable pub all_in : ContextInfo → ContextInfo → Bool
all_in [] other = true
all_in ((k, v) ∷ ci) other = found_as (find k other) v && all_in ci other

unfoldable pub equals : ContextInfo → ContextInfo → Bool
equals ci other = length ci == length other && all_in ci other
