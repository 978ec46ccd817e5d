-- ===== src/Prelude/Keys.antt =====
-- Maps with one entry for each key, and what keeps them so.
use mathlib.Core.Path.{◌≡◌, refl}
use mathlib.Core.Logic.{inl, inr}
use mathlib.Core.Bool.{true, false}
use mathlib.Core.List.{[], ◌∷◌}
use native.Mathlib.Omega.{arith}
use Prim.Native.Nat.{suc}
use octo_logger_cpp.Prelude.Tests.{if◌then◌else◌, Eq, Bool-cases}
use octo_logger_cpp.Prelude.Lists.{length}
use octo_logger_cpp.Prelude.Map.{
  Map, insert_or_assign, erase, contains, contains-find, find-erase, find-insert_or_assign,
}

module _ {ℓ κ} {K : Type ℓ} {V : Type κ} ⦃e : Eq K⦄ where
  -- No key stands twice.
  abbrev pub IsMap : Map K V → Type 0
  IsMap [] = Unit {0}
  IsMap ((k, v) ∷ m) = (contains k m ≡ false) × IsMap m

  pub contains-insert_or_assign :
      (j k : K) (v : V) (m : Map K V)
      → contains j (insert_or_assign k v m) ≡ (if e.beq k j then true else contains j m)
  contains-insert_or_assign j k v m = ground (
    arith,
    contains-find j (insert_or_assign k v m),
    contains-find j m,
    find-insert_or_assign k j v m,
  )

  pub contains-erase :
      (j k : K) (m : Map K V) → contains j (erase k m) ≡ (if e.beq k j then false else contains j m)
  contains-erase j k m =
      ground (arith, contains-find j (erase k m), contains-find j m, find-erase k j m)

  pub insert_or_assign-IsMap :
      (k : K) (v : V) (m : Map K V) → IsMap m → IsMap (insert_or_assign k v m)
  unfolding insert_or_assign contains
  insert_or_assign-IsMap k v [] h = (refl, tt)
  insert_or_assign-IsMap k v ((j, w) ∷ m) h = ground (
    arith,
    e.beq_iff k j,
    e.beq_iff j k,
    contains-insert_or_assign j k v m,
    insert_or_assign-IsMap k v m h.1,
  )

  pub erase-IsMap : (k : K) (m : Map K V) → IsMap m → IsMap (erase k m)
  unfolding erase contains
  erase-IsMap k [] h = tt
  erase-IsMap k ((j, w) ∷ m) h = ground (arith, contains-erase j k m, erase-IsMap k m h.1)

  erase_absent : (k : K) (m : Map K V) → contains k m ≡ false → erase k m ≡ m
  unfolding erase contains
  erase_absent k [] h = refl
  erase_absent k ((j, w) ∷ m) h = ground (arith, erase_absent k m)

  -- Erasing a key that is there shortens the map by one.
  pub length-erase :
      (k : K) (m : Map K V) → IsMap m → contains k m ≡ true → length m ≡ suc (length (erase k m))
  unfolding erase contains
  length-erase k [] h c = cc
  length-erase k ((j, w) ∷ m) h c = elim (Bool-cases (e.beq j k)) [
    | inl hit ↦ ground (arith, hit, e.beq_iff j k, erase_absent k m)
    | inr miss ↦ ground (arith, miss, length-erase k m h.1)
  ]
