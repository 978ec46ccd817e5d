-- ===== src/Prelude/Map.antt =====
-- std::unordered_map and std::map as association lists. The order of the list stands for the
-- order of iteration, which the C++ standard leaves open; statements about maps go through `find`.
use mathlib.Core.Path.{◌≡◌, refl}
use mathlib.Core.Bool.{Bool, true, false}
use mathlib.Core.List.{List, [], ◌∷◌}
use mathlib.Core.Option.{Option, none, some}
use native.Mathlib.Omega.{arith}
use octo_logger_cpp.Prelude.Tests.{if◌then◌else◌, Eq}

abbrev pub Map {ℓ κ} : Type ℓ → Type κ → Type (ℓ ⊔ κ)
Map K V = List (K × V)

-- has_value() of a std::optional, or a look-up that finds something
abbrev pub has {ℓ} : {V : Type ℓ} → Option V → Bool
has none = false
has (some v) = true

module _ {ℓ κ} {K : Type ℓ} {V : Type κ} ⦃e : Eq K⦄ where
  -- find(key), and the value there
  unfoldable pub find : K → Map K V → Option V
  find k [] = none
  find k ((j, v) ∷ m) = if e.beq j k then some v else find k m

  -- insert_or_assign(key, value), and map[key] = value
  unfoldable pub insert_or_assign : K → V → Map K V → Map K V
  insert_or_assign k v [] = (k, v) ∷ []
  insert_or_assign k v ((j, w) ∷ m) =
      if e.beq j k then (j, v) ∷ m else (j, w) ∷ insert_or_assign k v m

  -- erase(key)
  unfoldable pub erase : K → Map K V → Map K V
  erase k [] = []
  erase k ((j, w) ∷ m) = if e.beq j k then erase k m else (j, w) ∷ erase k m

  -- find(key) != end()
  unfoldable pub contains : K → Map K V → Bool
  contains k [] = false
  contains k ((j, w) ∷ m) = if e.beq j k then true else contains k m

  pub contains-find : (k : K) (m : Map K V) → contains k m ≡ has (find k m)
  unfolding find contains
  contains-find k [] = refl
  contains-find k ((j, w) ∷ m) = ground (arith, contains-find k m)

  pub find-insert_or_assign :
      (k j : K) (v : V) (m : Map K V)
      → find j (insert_or_assign k v m) ≡ (if e.beq k j then some v else find j m)
  unfolding find insert_or_assign
  find-insert_or_assign k j v [] = refl
  find-insert_or_assign k j v ((i, w) ∷ m) =
      ground (arith, e.beq_iff k j, e.beq_iff i k, e.beq_iff i j, find-insert_or_assign k j v m)

  pub find-insert_or_assign_same :
      (k : K) (v : V) (m : Map K V) → find k (insert_or_assign k v m) ≡ some v
  find-insert_or_assign_same k v m = rw (find-insert_or_assign k k v m, (e.beq_iff k k).1 refl)

  pub find-erase :
      (k j : K) (m : Map K V) → find j (erase k m) ≡ (if e.beq k j then none else find j m)
  unfolding find erase
  find-erase k j [] = ground arith
  find-erase k j ((i, w) ∷ m) =
      ground (arith, e.beq_iff k j, e.beq_iff i k, e.beq_iff i j, find-erase k j m)
