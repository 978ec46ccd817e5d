-- ===== src/Context/Equality.antt =====
-- operator== of two ContextInfo: the same value at every key.
use octo_logger_cpp.Prelude.{
  suc, ◌≤◌, ◌≡◌, refl, sym, ◌∙◌, true, false, ◌&&◌, Option, none, some, [], ◌∷◌, arith,
  if◌then◌else◌, Bool-cases, subst, inl, inr, ◌↔◌, length, ◌==◌,
}
use octo_logger_cpp.Prelude.Text.{Text, text_eq, text_eq_iff, text_Eq}
use octo_logger_cpp.Prelude.Map.{Map, find, has, contains-find, find-erase}
use octo_logger_cpp.Prelude.Map
use octo_logger_cpp.Prelude.Keys.{IsMap, erase-IsMap, length-erase}
use octo_logger_cpp.Context.{ContextInfo, found_as, all_in, equals}

-- Every entry of the first is an entry of the second.
abbrev Within : ContextInfo → ContextInfo → Type 0
Within a b = (k v : Text) → find k a ≡ some v → find k b ≡ some v

found_as-some : (o : Option Text) (w : Text) → (found_as o w ≡ true) ↔ (o ≡ some w)
unfolding found_as
found_as-some none w = (λ h. cc, λ h. cc)
found_as-some (some u) w = ground (arith, text_eq_iff u w)

find-cons :
    (k j w : Text) (a : ContextInfo)
    → find k ((j, w) ∷ a) ≡ (if text_eq j k then some w else find k a)
unfolding find
find-cons k j w a = refl

all_in-Within : (a b : ContextInfo) → all_in a b ≡ true → Within a b
unfolding all_in find
all_in-Within [] b h k v e = cc
all_in-Within ((j, w) ∷ a) b h k v e =
    let parts : (found_as (find j b) w ≡ true) × (all_in a b ≡ true) = ground arith in
    let here : find j b ≡ some w = (found_as-some (find j b) w).0 parts.0 in
    elim (Bool-cases (text_eq j k)) [
      | inl hit ↦ subst (λ t. find t b ≡ some v) ((text_eq_iff j k).0 hit) (here ∙ (rw hit at e))
      | inr miss ↦ all_in-Within a b parts.1 k v (rw miss at e)
    ]

-- A key of the tail is not that of the head.
tail_ne :
    (k j v : Text) (a : ContextInfo)
    → Map.contains j a ≡ false
    → find k a ≡ some v
    → text_eq j k ≡ false
tail_ne k j v a c e = ground (arith, contains-find j a, text_eq_iff j k)

Within-tail :
    (j w : Text) (a b : ContextInfo)
    → IsMap ((j, w) ∷ a)
    → Within ((j, w) ∷ a) b
    → (find j b ≡ some w) × Within a b
unfolding find
Within-tail j w a b m h =
    (h j w (rw ((text_eq_iff j j).1 refl)), λ k v e. h k v (rw (tail_ne k j v a m.0 e) e))

Within-all_in : (a b : ContextInfo) → IsMap a → Within a b → all_in a b ≡ true
unfolding all_in
Within-all_in [] b m h = refl
Within-all_in ((j, w) ∷ a) b m h =
    let t = Within-tail j w a b m h in
    ground (arith, (found_as-some (find j b) w).1 t.0, Within-all_in a b m.1 t.1)

-- The head of `a` taken out of both.
module _ (j w : Text) (a b : ContextInfo) (ma : IsMap ((j, w) ∷ a)) (mb : IsMap b)
    (h : Within ((j, w) ∷ a) b) where
  head_in : find j b ≡ some w
  head_in = (Within-tail j w a b ma h).0

  shorter : length b ≡ suc (length (Map.erase j b))
  shorter = length-erase j b mb (rw (contains-find j b, head_in))

  Within-erase : Within a (Map.erase j b)
  Within-erase i u f =
      rw (find-erase j i b, tail_ne i j u a ma.0 f) ((Within-tail j w a b ma h).1 i u f)

length_le : (a b : ContextInfo) → IsMap a → IsMap b → Within a b → length a ≤ length b
length_le [] b ma mb h = omega arith
length_le ((j, w) ∷ a) b ma mb h = omega (
  arith,
  shorter j w a b ma mb h,
  length_le a (Map.erase j b) ma.1 (erase-IsMap j b mb) (Within-erase j w a b ma mb h),
)

-- As many entries, and each of `a` in `b`: then each of `b` is in `a`.
Within-all : (a b : ContextInfo) → IsMap a → IsMap b → Within a b → length a ≡ length b → Within b a
Within-all [] [] ma mb h l = h
Within-all [] (x ∷ b) ma mb h l = absurd (omega arith)
Within-all ((j, w) ∷ a) b ma mb h l =
    let rest =
      Within-all a (Map.erase j b) ma.1 (erase-IsMap j b mb) (Within-erase j w a b ma mb h)
        (omega (arith, shorter j w a b ma mb h)) in
    λ k v e. elim (Bool-cases (text_eq j k)) [
      | inl hit ↦
          rw (find-cons k j w a, hit)
            (sym
                (subst (λ t. find t b ≡ some w) ((text_eq_iff j k).0 hit) (head_in j w a b ma mb h))
              ∙ e)
      | inr miss ↦ rw (find-cons k j w a, miss) (rest k v (rw (find-erase j k b, miss) e))
    ]

same_answers :
    (x y : Option Text)
    → ((v : Text) → x ≡ some v → y ≡ some v)
    → ((v : Text) → y ≡ some v → x ≡ some v)
    → x ≡ y
same_answers none none f g = refl
same_answers none (some v) f g = g v refl
same_answers (some v) y f g = sym (f v refl)

-- Two ContextInfo compare equal just when they have the same value at every key, whatever the order
-- of their entries.
pub equals_iff :
    (a b : ContextInfo)
    → IsMap a
    → IsMap b
    → (equals a b ≡ true) ↔ ((k : Text) → find k a ≡ find k b)
unfolding equals
equals_iff a b ma mb = (there, back)
  where
    there : (length a == length b && all_in a b) ≡ true → (k : Text) → find k a ≡ find k b
    there h k =
        let parts : (length a ≡ length b) × (all_in a b ≡ true) = ground arith in
        let sub = all_in-Within a b parts.1 in
        same_answers (find k a) (find k b) (sub k) (Within-all a b ma mb sub parts.0 k)

    back : ((k : Text) → find k a ≡ find k b) → (length a == length b && all_in a b) ≡ true
    back h =
        let sub : Within a b = λ k v e. rw (← h k) e in
        let sup : Within b a = λ k v e. rw (h k) e in
        ground (arith, length_le a b ma mb sub, length_le b a mb ma sup, Within-all_in a b ma sub)
