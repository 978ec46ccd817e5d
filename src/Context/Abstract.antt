-- ===== src/Context/Abstract.antt =====
-- A context info as the code that reads it sees it: the order of the unordered map is forgotten.
use octo_logger_cpp.Prelude.{◌≡◌, refl, sym, ◌∙◌, true, Option, none, some, [], ◌↔◌}
use octo_logger_cpp.Prelude.Text.{Text, text_Eq}
use octo_logger_cpp.Prelude.Map.{find}
use octo_logger_cpp.Prelude.Keys.{IsMap}
use octo_logger_cpp.Context.{ContextInfo, update, equals}
use octo_logger_cpp.Context.Laws.{or_else, find-update, update-IsMap}
use octo_logger_cpp.Context.Equality.{equals_iff}
use mathlib.Core.Quot.Quotient
use mathlib.Core.Quot.{Setoid, Quotient, Quotient-set}
use native.Mathlib.Nat.{ℕ_set}

-- A ContextInfo with one entry for each key, as an unordered map has.
abbrev pub Entries : Type 0
Entries = (ci : ContextInfo) × IsMap ci

abbrev pub value_at : Text → Entries → Option Text
value_at k a = find k a.0

abbrev same_values : Setoid {0, 0} Entries
same_values = record {
  r = λ a b. (k : Text) → value_at k a ≡ value_at k b;
  iseqv = record {
    refl = λ a k. refl;
    symm = λ a b h k. sym (h k);
    trans = λ a b c h g k. h k ∙ g k;
  };
}

abbrev pub AbstractContext : Type 0
AbstractContext = Quotient same_values

abbrev pub abstract_of : Entries → AbstractContext
abstract_of a = Quotient.mk same_values a

-- Two of them are equal just when operator== says so.
pub equals_abstract : (a b : Entries) → (equals a.0 b.0 ≡ true) ↔ (abstract_of a ≡ abstract_of b)
equals_abstract a b =
    let e = equals_iff a.0 b.0 a.1 b.1 in
    (
      λ h. Quotient.sound same_values (e.0 h),
      λ h. e.1 (Quotient.exact same_values (λ x y. hlevel ℕ_set) h),
    )

AbstractContext_set : IsSet AbstractContext
AbstractContext_set = Quotient-set same_values

-- update(other) and clear() of entries
abbrev pub merged : Entries → Entries → Entries
merged a b = (update a.0 b.0, update-IsMap a.0 b.0 a.1)

abbrev pub no_entries : Entries
no_entries = ([], tt)

value_at-merged :
    (k : Text) (a b : Entries) → value_at k (merged a b) ≡ or_else (value_at k b) (value_at k a)
value_at-merged k a b = find-update k a.0 b.0 b.1

merged_congr :
    (a b a' b' : Entries)
    → ((k : Text) → value_at k a ≡ value_at k a')
    → ((k : Text) → value_at k b ≡ value_at k b')
    → (k : Text) → value_at k (merged a b) ≡ value_at k (merged a' b')
merged_congr a b a' b' h g k = rw (value_at-merged k a b, value_at-merged k a' b', h k, g k)

-- update(other), whatever the order in which the two maps are gone through.
pub merge : AbstractContext → AbstractContext → AbstractContext
merge =
    Quotient.lift₂ same_values same_values AbstractContext_set (λ a b. abstract_of (merged a b))
      λ a b a' b' h g. Quotient.sound same_values (merged_congr a b a' b' h g)

mk-merged : (a b : Entries) → abstract_of (merged a b) ≡ merge (abstract_of a) (abstract_of b)
unfolding merge
mk-merged a b = sym (Quotient.lift₂-mk same_values same_values AbstractContext_set _ _ a b)

or_else_assoc : (x y z : Option Text) → or_else z (or_else y x) ≡ or_else (or_else z y) x
or_else_assoc x y none = refl
or_else_assoc x y (some v) = refl

or_else_idem : (x : Option Text) → or_else x x ≡ x
or_else_idem none = refl
or_else_idem (some v) = refl

or_else-none : (x : Option Text) → or_else x none ≡ x
or_else-none none = refl
or_else-none (some v) = refl

merged_assoc :
    (a b c : Entries) (k : Text)
    → value_at k (merged (merged a b) c) ≡ value_at k (merged a (merged b c))
merged_assoc a b c k =
    rw
      (
        value_at-merged k (merged a b) c,
        value_at-merged k a b,
        value_at-merged k a (merged b c),
        value_at-merged k b c,
      )
      (or_else_assoc (value_at k a) (value_at k b) (value_at k c))

merge_assoc : (a b c : AbstractContext) → merge (merge a b) c ≡ merge a (merge b c)
merge_assoc a b c =
    Quotient.induction_on₃ same_values same_values same_values
      {motive = λ a b c. merge (merge a b) c ≡ merge a (merge b c)}
      (λ a b c. AbstractContext_set _ _) a b c
      λ x y z. simp (← mk-merged) (Quotient.sound same_values (merged_assoc x y z))

-- A law of one class, from entries that have the same values.
module _ (f : Entries → Entries)
    (h : (x : Entries) (k : Text) → value_at k (f x) ≡ value_at k x) where
  unchanged : (x : Entries) → abstract_of (f x) ≡ abstract_of x
  unchanged x = Quotient.sound same_values (h x)

empty_merge : (a : AbstractContext) → merge (abstract_of no_entries) a ≡ a
unfolding find
empty_merge a =
    Quotient.induction_on same_values {motive = λ a. merge (abstract_of no_entries) a ≡ a}
      (λ a. AbstractContext_set _ _) a
      λ x. simp (← mk-merged) (
        unchanged (merged no_entries)
          (λ y k. value_at-merged k no_entries y ∙ or_else-none (value_at k y)) x)

merge-empty : (a : AbstractContext) → merge a (abstract_of no_entries) ≡ a
unfolding find
merge-empty a =
    Quotient.induction_on same_values {motive = λ a. merge a (abstract_of no_entries) ≡ a}
      (λ a. AbstractContext_set _ _) a
      λ x.
        simp (← mk-merged)
          (unchanged (λ y. merged y no_entries) (λ y k. value_at-merged k y no_entries) x)

merge_idem : (a : AbstractContext) → merge a a ≡ a
merge_idem a =
    Quotient.induction_on same_values {motive = λ a. merge a a ≡ a} (λ a. AbstractContext_set _ _) a
      λ x.
        simp (← mk-merged) (
          unchanged (λ y. merged y y) (λ y k. value_at-merged k y y ∙ or_else_idem (value_at k y))
            x)

-- With the order of the entries forgotten, updates of a context info by others can be grouped. An update
-- of no entries gives those that it is by, and one by no entries or by the same entries changes nothing.
merge_laws :
    (a b c : AbstractContext)
    → (merge (merge a b) c ≡ merge a (merge b c))
      × (merge (abstract_of no_entries) a ≡ a)
      × (merge a (abstract_of no_entries) ≡ a)
      × (merge a a ≡ a)
merge_laws a b c = (merge_assoc a b c, empty_merge a, merge-empty a, merge_idem a)
