-- ===== src/Config/Laws/Removal.antt =====
-- remove_sink takes out one sink at most: the first configuration of that name, or else the first
-- custom sink of that name.
use octo_logger_cpp.Prelude.{
  ℕ, ◌≡◌, refl, ap, ◌↔◌, true, false, none, some, List, [], ◌∷◌, ◌++◌, All, arith, Option-cases,
  Bool-cases, inl, inr,
}
use octo_logger_cpp.Prelude.Text.{Text, text_eq, text_eq_iff}
use octo_logger_cpp.Config.SinkConfig.{SinkConfig}
use octo_logger_cpp.Config.ManagerConfig.{
  ManagerConfig, names_sink, has_sink, remove_first, remove_sink,
}

-- `ys` is `xs` without its first entry of the name.
pub record IsRemoved {A : Type 0} (name_of : A → Text) (name : Text) (xs ys : List A) : Type 0 where
  pub before : List A
  pub removed : A
  pub after : List A
  pub was : xs ≡ before ++ removed ∷ after
  pub left : ys ≡ before ++ after
  pub named : name_of removed ≡ name
  pub first : All (λ x. text_eq (name_of x) name ≡ false) before

module _ {A : Type 0} (name_of : A → Text) (name : Text) where
  remove_first-IsRemoved :
      (xs ys : List A) → remove_first name_of name xs ≡ some ys → IsRemoved name_of name xs ys
  unfolding remove_first
  remove_first-IsRemoved [] ys e = absurd (ground arith)
  remove_first-IsRemoved (x ∷ xs) ys e = elim (Bool-cases (text_eq (name_of x) name)) [
    | inl hit ↦ record {
      before = [];
      removed = x;
      after = xs;
      was = refl;
      left = ground (arith, hit);
      named = (text_eq_iff (name_of x) name).0 hit;
      first = tt;
    }
    | inr miss ↦ elim (Option-cases (remove_first name_of name xs)) [
      | inl gone ↦ absurd (ground (arith, miss, gone))
      | inr (zs, f) ↦
          let r = remove_first-IsRemoved xs zs f in
          record {
            before = x ∷ r.before;
            removed = r.removed;
            after = r.after;
            was = ap (λ t. x ∷ t) r.was;
            left = ground (arith, miss, f, r.left);
            named = r.named;
            first = (miss, r.first);
          }
    ]
  ]

  remove_first-none :
      (xs : List A)
      → remove_first name_of name xs ≡ none
      → All (λ x. text_eq (name_of x) name ≡ false) xs
  unfolding remove_first
  remove_first-none [] e = tt
  remove_first-none (x ∷ xs) e = elim (Option-cases (remove_first name_of name xs)) [
    | inl gone ↦ ground (arith, gone, remove_first-none xs gone)
    | inr (zs, f) ↦ absurd (ground (arith, f))
  ]

names_sink_lem :
    (name : Text) (cs : List SinkConfig)
    → (names_sink name cs ≡ false) ↔ (remove_first (λ (s : SinkConfig). s.sink_name) name cs ≡ none)
unfolding names_sink remove_first
names_sink_lem name [] = ground arith
names_sink_lem name (c ∷ cs) = ground (arith, names_sink_lem name cs)

abbrev config_name : SinkConfig → Text
config_name s = s.sink_name

-- What remove_sink may do: take out a configuration, a custom sink, or nothing.
pub data Removes (sink_name_of : ℕ → Text) (name : Text) (c d : ManagerConfig) : Type 0 where
  config :
      has_sink name c ≡ true
      → IsRemoved (λ (s : SinkConfig). s.sink_name) name c.sink_configs d.sink_configs
      → d.custom_sinks ≡ c.custom_sinks
      → Removes sink_name_of name c d
  custom :
      has_sink name c ≡ false
      → d.sink_configs ≡ c.sink_configs
      → IsRemoved sink_name_of name c.custom_sinks d.custom_sinks
      → Removes sink_name_of name c d
  nothing :
      has_sink name c ≡ false
      → All (λ s. text_eq (sink_name_of s) name ≡ false) c.custom_sinks
      → d ≡ c
      → Removes sink_name_of name c d

-- remove_sink removes the first sink configuration of the name if has_sink finds one; else the first
-- custom sink of the name; and if there is none of either it changes nothing.
pub remove_sink-Removes :
    (sink_name_of : ℕ → Text) (name : Text) (c : ManagerConfig)
    → Removes sink_name_of name c (remove_sink sink_name_of name c)
unfolding remove_sink has_sink
remove_sink-Removes sink_name_of name c =
    elim (Option-cases (remove_first config_name name c.sink_configs)) [
      | inr (ss, e) ↦ rw e (
          config (unfold has_sink in ground (arith, e, names_sink_lem name c.sink_configs))
            (remove_first-IsRemoved config_name name c.sink_configs ss e) refl)
      | inl e ↦ elim (Option-cases (remove_first sink_name_of name c.custom_sinks)) [
        | inr (ss, f) ↦
            rw (e, f)
              (custom ((names_sink_lem name c.sink_configs).1 e) refl
                (remove_first-IsRemoved sink_name_of name c.custom_sinks ss f))
        | inl f ↦
            rw (e, f)
              (nothing ((names_sink_lem name c.sink_configs).1 e)
                (remove_first-none sink_name_of name c.custom_sinks f) refl)
      ]
    ]
