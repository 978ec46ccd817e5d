-- ===== src/Level/Names.antt =====
-- Names of levels and the way back, whatever the case of the letters.
use octo_logger_cpp.Prelude.{
  ℕ, ◌≡◌, refl, sym, ◌∙◌, ap, ◌↔◌, ◌⊎◌, inl, inr, some, [], ◌∷◌, map, arith, Option-cases,
  Bool-cases, All, some_inj, ◌≢◌, ◌++◌, true, subst,
}
use octo_logger_cpp.Prelude.Text.{Text, text_Eq, codes, text_eq, text_eq_iff}
use octo_logger_cpp.Prelude.Map.{Map, find}
use octo_logger_cpp.Prelude.Result.{ok, throw, runtime_error}
use octo_logger_cpp.Level.{
  LogLevel, unnamed, level_to_string, level_to_string_lower, level_to_string_upper, to_upper,
  level_names, again, normalized, string_to_level,
}

to_upper_idem : (c : ℕ) → to_upper (to_upper c) ≡ to_upper c
unfolding to_upper
to_upper_idem c = ground arith

map-to_upper_idem : (s : Text) → map to_upper (map to_upper s) ≡ map to_upper s
map-to_upper_idem [] = refl
map-to_upper_idem (c ∷ s) = cc (to_upper_idem c, map-to_upper_idem s)

-- What holds of every row of a table holds of the row that a look-up finds.
find-All {ℓ} :
    (P : Text → LogLevel → Type ℓ) (m : Map Text LogLevel)
    → All (λ r. P r.0 r.1) m
    → (s : Text) (l : LogLevel) → find s m ≡ some l
    → P s l
unfolding find
find-All P [] h s l e = cc
find-All P ((k, v) ∷ m) h s l e = elim (Bool-cases (text_eq k s)) [
  | inl hit ↦ subst (λ t. P t l) ((text_eq_iff k s).0 hit) (subst (P k) (row hit) h.0)
  | inr miss ↦ find-All P m h.1 s l (rw miss at e)
]
  where
    row : text_eq k s ≡ true → v ≡ l
    row hit = ground (arith, hit)

abbrev RowFits : Text → LogLevel → Type 0
RowFits k l = level_to_string_upper l ≡ some (map to_upper k)

rows_fit : All (λ (r : Text × LogLevel). RowFits r.0 r.1) level_names
unfolding level_to_string_upper to_upper
rows_fit = ground arith

find-upper :
    (l : LogLevel) (s : Text) → level_to_string_upper l ≡ some s → find s level_names ≡ some l
unfolding level_to_string_upper find
find-upper (unnamed n) s e = cc
find-upper l s e = subst (λ t. find t level_names ≡ some l) (some_inj e) refl

find-RowFits : (s : Text) (l : LogLevel) → find s level_names ≡ some l → RowFits s l
find-RowFits = find-All RowFits level_names rows_fit

-- The level of a text found as it stands, and of one found after the change of case.
module _ (s : Text) (l : LogLevel) where
  string_to_level-RowFits : string_to_level s ≡ ok l → RowFits s l
  unfolding string_to_level
  string_to_level-RowFits h = elim (Option-cases (find s level_names)) [
    | inr (k, e) ↦ find-RowFits s l (ground (arith, e))
    | inl miss ↦ elim (Option-cases (find (map to_upper s) level_names)) [
      | inr (k, e) ↦
          rw (map-to_upper_idem s) at (find-RowFits (map to_upper s) l (ground (arith, miss, e)))
      | inl gone ↦ absurd (ground (arith, miss, gone))
    ]
  ]

  RowFits-string_to_level : RowFits s l → string_to_level s ≡ ok l
  unfolding string_to_level
  RowFits-string_to_level h = elim (Option-cases (find s level_names)) [
    | inr (k, e) ↦ rw (e, normalized) (ap ok (some_inj (sym (found k e) ∙ named)))
    | inl miss ↦ rw (miss, normalized, named, again)
  ]
    where
      named : find (map to_upper s) level_names ≡ some l
      named = find-upper l (map to_upper s) h

      found :
          (k : LogLevel) → find s level_names ≡ some k → find (map to_upper s) level_names ≡ some k
      found k e = find-upper k (map to_upper s) (find-RowFits s k e)

-- string_to_level returns a level just for the texts that are its name in some mixture of case.
pub string_to_level_iff :
    (s : Text) (l : LogLevel)
    → (string_to_level s ≡ ok l) ↔ (level_to_string_upper l ≡ some (map to_upper s))
string_to_level_iff s l = (string_to_level-RowFits s l, RowFits-string_to_level s l)

SpelledAs : LogLevel → Text → Type 0
SpelledAs l s =
    ((level_to_string l ≡ some s) ⊎ (level_to_string_lower l ≡ some s))
    ⊎ (level_to_string_upper l ≡ some s)

SpelledAs-RowFits : (l : LogLevel) (s : Text) → SpelledAs l s → RowFits s l
unfolding SpelledAs level_to_string level_to_string_lower level_to_string_upper to_upper
SpelledAs-RowFits (unnamed n) s h = ground arith
SpelledAs-RowFits l s (inl (inl e)) = subst (λ t. RowFits t l) (some_inj e) refl
SpelledAs-RowFits l s (inl (inr e)) = subst (λ t. RowFits t l) (some_inj e) refl
SpelledAs-RowFits l s (inr e) = subst (λ t. RowFits t l) (some_inj e) refl

-- The name of a level in any of the three spellings (Capitalized, lowercase, UPPERCASE) leads back
-- to that level.
pub string_to_level-level_to_string :
    (l : LogLevel) (s : Text)
    → ((level_to_string l ≡ some s) ⊎ (level_to_string_lower l ≡ some s))
      ⊎ (level_to_string_upper l ≡ some s)
    → string_to_level s ≡ ok l
unfolding SpelledAs
string_to_level-level_to_string l s h = RowFits-string_to_level s l (SpelledAs-RowFits l s h)

-- A text that names no level makes string_to_level throw, and the message quotes it.
pub string_to_level_throws :
    (s : Text)
    → ((l : LogLevel) → level_to_string_upper l ≢ some (map to_upper s))
    → string_to_level s
      ≡ throw (runtime_error (codes "Invalid Log Level String [" ++ s ++ codes "]"))
unfolding string_to_level
string_to_level_throws s h = elim (Option-cases (find s level_names)) [
  | inr (k, e) ↦ absurd (h k (find-RowFits s k e))
  | inl miss ↦ elim (Option-cases (find (map to_upper s) level_names)) [
    | inr (k, e) ↦ absurd (h k (rw (map-to_upper_idem s) at (find-RowFits (map to_upper s) k e)))
    | inl gone ↦ rw (miss, normalized, gone, again)
  ]
]
