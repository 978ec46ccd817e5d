-- ===== src/Context/Tests.antt =====
-- Runs of ContextInfo, and the theorems at concrete contexts.
use octo_logger_cpp.Prelude.{◌≡◌, refl, ◌↔◌, true, some, none, [], ◌∷◌, if◌then◌else◌}
use octo_logger_cpp.Prelude.Text.{Text, text_Eq, text_eq, codes}
use octo_logger_cpp.Prelude.Map.{find, insert_or_assign, has}
use octo_logger_cpp.Prelude.Map
use octo_logger_cpp.Prelude.Keys.{IsMap}
use octo_logger_cpp.Prelude.Result.{ok, throw, out_of_range}
use octo_logger_cpp.Context.{
  ContextInfo, update_key, update, erase, contains, at, clear, equals, all_in, found_as,
}
use octo_logger_cpp.Context.Laws.{or_else, operations_refine}
use octo_logger_cpp.Context.Abstract.{Entries, abstract_of, equals_abstract}

abbrev tenant : Text
tenant = codes "tenant_id"

abbrev session : Text
session = codes "session_id"

abbrev first : ContextInfo
first = (tenant, codes "a") ∷ (session, codes "1") ∷ []

abbrev second : ContextInfo
second = (session, codes "1") ∷ (tenant, codes "a") ∷ []

first-IsMap : IsMap first
unfolding Map.contains
first-IsMap = (refl, (refl, tt))

second-IsMap : IsMap second
unfolding Map.contains
second-IsMap = (refl, (refl, tt))

reordered : equals first second ≡ true
unfolding equals all_in found_as find
reordered = refl

missing : at (codes "x") first ≡ throw out_of_range
unfolding at find
missing = refl

operations_refine_example :
    (find session (update_key tenant (codes "b") first)
      ≡ (if text_eq tenant session then some (codes "b") else find session first))
    × (find session (update first second) ≡ or_else (find session second) (find session first))
    × (find session (erase tenant first)
        ≡ (if text_eq tenant session then none else find session first))
    × (find session (clear first) ≡ none)
    × (contains session first ≡ has (find session first))
    × ((at session first ≡ ok (codes "b")) ↔ (find session first ≡ some (codes "b")))
    × ((at session first ≡ throw out_of_range) ↔ (find session first ≡ none))
operations_refine_example = operations_refine tenant session (codes "b") first second second-IsMap

abbrev in_order : Entries
in_order = (first, first-IsMap)

abbrev in_other_order : Entries
in_other_order = (second, second-IsMap)

equals_abstract_example :
    (equals first second ≡ true) ↔ (abstract_of in_order ≡ abstract_of in_other_order)
equals_abstract_example = equals_abstract in_order in_other_order
