-- ===== src/Context/Laws.antt =====
-- What the operations of ContextInfo do to each key.
use octo_logger_cpp.Prelude.{
  ◌≡◌, refl, Option, none, some, List, [], ◌∷◌, arith, if◌then◌else◌, Bool-cases, inl, inr, ◌↔◌,
}
use octo_logger_cpp.Prelude.Text.{Text, text_eq, text_eq_iff, text_Eq}
use octo_logger_cpp.Prelude.Map.{
  Map, find, insert_or_assign, has, contains-find, find-erase, find-insert_or_assign,
}
use octo_logger_cpp.Prelude.Map
use octo_logger_cpp.Prelude.Keys.{IsMap, insert_or_assign-IsMap, erase-IsMap}
use octo_logger_cpp.Prelude.Result.{ok, throw, out_of_range}
use octo_logger_cpp.Context.{
  ContextInfo, insert_all, of_list, update_key, update, erase, contains, at, clear,
}

-- The first of two answers, if there is one.
abbrev pub or_else {ℓ} : {A : Type ℓ} → Option A → Option A → Option A
or_else none b = b
or_else (some x) b = some x

-- After `ci.update(other)` a key has its value of `other` if it has one there, and that of `ci` if not.
pub find-update :
    (k : Text) (ci other : ContextInfo)
    → IsMap other
    → find k (update ci other) ≡ or_else (find k other) (find k ci)
unfolding update update_key find
find-update k ci [] h = refl
find-update k ci ((j, v) ∷ other) h = ground (
  arith,
  find-update k (insert_or_assign j v ci) other h.1,
  find-insert_or_assign j k v ci,
  contains-find j other,
  text_eq_iff j k,
)

pub update-IsMap : (ci other : ContextInfo) → IsMap ci → IsMap (update ci other)
unfolding update update_key
update-IsMap ci [] h = h
update-IsMap ci ((j, v) ∷ other) h =
    update-IsMap (insert_or_assign j v ci) other (insert_or_assign-IsMap j v ci h)

insert_all-IsMap :
    (init : List (Text × Text)) (ci : ContextInfo) → IsMap ci → IsMap (insert_all init ci)
unfolding insert_all
insert_all-IsMap [] ci h = h
insert_all-IsMap ((k, v) ∷ init) ci h = elim (Bool-cases (Map.contains k ci)) [
  | inl hit ↦ rw hit (insert_all-IsMap init ci h)
  | inr miss ↦
      rw miss (insert_all-IsMap init (insert_or_assign k v ci) (insert_or_assign-IsMap k v ci h))
]

find-insert_all :
    (k : Text) (init : List (Text × Text)) (ci : ContextInfo)
    → find k (insert_all init ci) ≡ or_else (find k ci) (find k init)
unfolding insert_all find
find-insert_all k [] ci = ground arith
find-insert_all k ((j, v) ∷ init) ci = ground (
  arith,
  find-insert_all k init ci,
  find-insert_all k init (insert_or_assign j v ci),
  find-insert_or_assign j k v ci,
  contains-find j ci,
  text_eq_iff j k,
)

-- A ContextInfo made from a list of entries has one entry for each key, the first given for it.
pub of_list_lem :
    (k : Text) (init : List (Text × Text))
    → IsMap (of_list init) × (find k (of_list init) ≡ find k init)
unfolding of_list find
of_list_lem k init = (insert_all-IsMap init [] tt, find-insert_all k init [])

-- Each operation of ContextInfo, as one on the partial function from keys to values: `update` with a
-- key, `update` with another ContextInfo, `erase`, `clear`, `contains` and `at`, which throws
-- std::out_of_range for a missing key.
pub operations_refine :
    (k j : Text) (v : Text) (ci other : ContextInfo)
    → IsMap other
    → (find j (update_key k v ci) ≡ (if text_eq k j then some v else find j ci))
      × (find j (update ci other) ≡ or_else (find j other) (find j ci))
      × (find j (erase k ci) ≡ (if text_eq k j then none else find j ci))
      × (find j (clear ci) ≡ none)
      × (contains j ci ≡ has (find j ci))
      × ((at j ci ≡ ok v) ↔ (find j ci ≡ some v))
      × ((at j ci ≡ throw out_of_range) ↔ (find j ci ≡ none))
unfolding update_key erase clear contains at find
operations_refine k j v ci other h = (
  find-insert_or_assign k j v ci,
  find-update j ci other h,
  find-erase k j ci,
  refl,
  contains-find j ci,
  ground arith,
  ground arith,
)

-- Every operation keeps the entries one for each key.
pub operations-IsMap :
    (k v : Text) (ci other : ContextInfo)
    → IsMap ci
    → IsMap (update_key k v ci) × IsMap (update ci other) × IsMap (erase k ci) × IsMap (clear ci)
unfolding update_key erase clear
operations-IsMap k v ci other h =
    (insert_or_assign-IsMap k v ci h, update-IsMap ci other h, erase-IsMap k ci h, tt)
