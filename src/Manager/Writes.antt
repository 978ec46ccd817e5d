-- ===== src/Manager/Writes.antt =====
-- What a write of a level does to the memory of the channels.
use octo_logger_cpp.Prelude.{
  zero, suc, ◌≡◌, refl, ap, ◌∙◌, sym, subst, Bool, true, false, Option, none, some, List, [], ◌∷◌,
  ◌++◌, length, get_elem?, set, Option-cases, Bool-cases, inl, inr, ◌==◌, ==_iff, if◌then◌else◌,
  get_elem?-set_self, get_elem?-set_ne, get_elem?-lt, arith,
}
use octo_logger_cpp.Prelude.Text.{Text}
use octo_logger_cpp.Prelude.Map.{Map}
use octo_logger_cpp.Level.{LogLevel}
use octo_logger_cpp.Channel.{Channel, ChannelPtr, Heap, deref}
use octo_logger_cpp.Channel
use octo_logger_cpp.Manager.{set_all}

-- The names of the channels in memory, which no operation changes.
abbrev pub names : Heap → List Text
names [] = []
names (c ∷ heap) = c.channel_name ∷ names heap

pub length-names : (heap : Heap) → length (names heap) ≡ length heap
length-names [] = refl
length-names (c ∷ heap) = ap suc (length-names heap)

pub names-append : (h k : Heap) → names (h ++ k) ≡ names h ++ names k
names-append [] k = refl
names-append (c ∷ h) k = ap (λ r. c.channel_name ∷ r) (names-append h k)

names-set :
    (heap : Heap) (p : ChannelPtr) (c d : Channel)
    → deref p heap ≡ some c
    → d.channel_name ≡ c.channel_name
    → names (set heap p d) ≡ names heap
names-set [] p c d h e = cc
names-set (b ∷ heap) zero c d h e =
    ap (λ r. r ∷ names heap) (e ∙ ap (λ (x : Channel). x.channel_name) (sym (some_eq h)))
  where
    some_eq : {b c : Channel} → some b ≡ some c → b ≡ c
    some_eq h = cc
names-set (b ∷ heap) (suc p) c d h e = ap (λ r. b.channel_name ∷ r) (names-set heap p c d h e)

pub names-set_log_level :
    (l : LogLevel) (p : ChannelPtr) (heap : Heap)
    → names (Channel.set_log_level l p heap) ≡ names heap
unfolding Channel.set_log_level
names-set_log_level l p heap = elim (Option-cases (deref p heap)) [
  | inl e ↦ rw (e, Channel.write_level) refl
  | inr (c, e) ↦
      rw (e, Channel.write_level) (names-set heap p c (record c { channel_level = l }) e refl)
]

pub names-set_all :
    (l : LogLevel) (cs : Map Text ChannelPtr) (heap : Heap) → names (set_all l cs heap) ≡ names heap
unfolding set_all
names-set_all l [] heap = refl
names-set_all l ((k, p) ∷ cs) heap =
    names-set_all l cs (Channel.set_log_level l p heap) ∙ names-set_log_level l p heap

-- The channel at an address is the written one, with its new level, or as it was.
abbrev pub with_level : LogLevel → Option Channel → Option Channel
with_level l none = none
with_level l (some c) = some (record c { channel_level = l })

pub deref-set_log_level :
    (l : LogLevel) (p q : ChannelPtr) (heap : Heap)
    → deref q (Channel.set_log_level l p heap)
      ≡ (if p == q then with_level l (deref q heap) else deref q heap)
unfolding Channel.set_log_level
deref-set_log_level l p q heap = elim (Option-cases (deref p heap)) [
  | inl e ↦ elim (Bool-cases (p == q)) [
    | inl y ↦
        let pq = (==_iff p q).0 y in
        rw (e, Channel.write_level, y)
          (subst (λ r. deref r heap ≡ with_level l (deref r heap)) pq (rw e refl))
    | inr n ↦ rw (e, Channel.write_level, n) refl
  ]
  | inr (c, e) ↦ elim (Bool-cases (p == q)) [
    | inl y ↦
        let pq = (==_iff p q).0 y in
        rw (e, Channel.write_level, y)
          (subst
            (λ r.
              get_elem? (set heap p (record c { channel_level = l })) r
              ≡ with_level l (deref r heap))
            pq
            (rw e (
              get_elem?-set_self heap p (record c { channel_level = l })
                (get_elem?-lt heap p c e))))
    | inr n ↦
        rw (e, Channel.write_level, n)
          (get_elem?-set_ne heap (record c { channel_level = l })
            (λ pq. ground (arith, n, ==_iff p q)))
  ]
]

-- Whether the address is registered.
abbrev pub registers : Map Text ChannelPtr → ChannelPtr → Bool
registers [] q = false
registers ((k, p) ∷ cs) q = if p == q then true else registers cs q

with_level_twice :
    (l : LogLevel) (o : Option Channel) → with_level l (with_level l o) ≡ with_level l o
with_level_twice l none = refl
with_level_twice l (some c) = refl

pub deref-set_all :
    (l : LogLevel) (cs : Map Text ChannelPtr) (q : ChannelPtr) (heap : Heap)
    → deref q (set_all l cs heap)
      ≡ (if registers cs q then with_level l (deref q heap) else deref q heap)
unfolding set_all
deref-set_all l [] q heap = refl
deref-set_all l ((k, p) ∷ cs) q heap = elim (Bool-cases (p == q)) [
  | inl y ↦ elim (Bool-cases (registers cs q)) [
    | inl r ↦
        rw
          (
            deref-set_all l cs q (Channel.set_log_level l p heap),
            deref-set_log_level l p q heap,
            y,
            r,
          )
          (with_level_twice l (deref q heap))
    | inr r ↦
        rw
          (
            deref-set_all l cs q (Channel.set_log_level l p heap),
            deref-set_log_level l p q heap,
            y,
            r,
          )
          refl
  ]
  | inr n ↦
      rw (deref-set_all l cs q (Channel.set_log_level l p heap), deref-set_log_level l p q heap, n)
        refl
]
