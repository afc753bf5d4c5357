-- ===== src/Tests/Redis.antt =====
-- A Redis server as an association list, which shows that the laws of the client can hold.
use thinking_feature_flag_se.Common.{
  ℕ, zero, suc, ◌+◌, ◌≡◌, ◌≢◌, ◌⊎◌, inl, inr, refl, sym, ap, ◌∙◌, String, true, Option, none, some,
  List, [], ◌∷◌, arith, ◌==◌, string_eq, if◌then◌else◌, member, Bool-cases, Option-cases,
  true-ne-false, eq_of_test, eq_self, ◌<>◌, length,
}
use thinking_feature_flag_se.Common.Texts.{codes, codes-append, Lacks}
use thinking_feature_flag_se.Payload.{Item}
use thinking_feature_flag_se.Services.{replied, Redis, RedisLaws, CounterLaws, CounterAnswers}

abbrev Entries : Type 0
Entries = List (String × Option (List Item))

abbrev held : Entries → String → Option (Option (List Item))
held [] key = none
held ((k, v) ∷ entries) key = if k == key then some v else held entries key

abbrev without : List String → Entries → Entries
without ks [] = []
without ks ((k, v) ∷ entries) =
    if member k ks then without ks entries else (k, v) ∷ without ks entries

abbrev Counters : Type 0
Counters = List (String × ℕ)

abbrev counted : Counters → String → ℕ
counted [] key = 0
counted ((k, n) ∷ counters) key = if k == key then n else counted counters key

pub record Store : Type 0 where
  pub entries : Entries
  pub counters : Counters

abbrev pub no_data : Store
no_data = record { entries = []; counters = [] }

abbrev incremented : Store → String → Store
incremented s k = record s { counters = (k, counted s.counters k + 1) ∷ s.counters }

abbrev pub redis : Redis
redis = record {
  Server = Store;
  Value = Option (List Item);
  get = λ s k. replied (held s.entries k);
  set = λ s k v ttl. (replied tt, record s { entries = (k, v) ∷ s.entries });
  delete = λ s ks. (replied tt, record s { entries = without ks s.entries });
  incr = λ s k. (replied (counted s.counters k + 1), incremented s k);
  expire = λ s k ttl. (replied tt, s);
}

-- What was deleted is not held.
some-injective : {A : Type 0} {a b : A} → some a ≡ some b → a ≡ b
some-injective e = cc

without-gone :
    (s : Entries) (ks : List String) (j : String) (w : Option (List Item))
    → member j ks ≡ true
    → ¬ (held (without ks s) j ≡ some w)
without-gone [] ks j w m h = cc
without-gone ((k, v) ∷ s) ks j w m h = elim (Bool-cases (member k ks)) [
  | inl gone ↦ without-gone s ks j w m (rw gone at h)
  | inr kept ↦ elim (Bool-cases (k == j)) [
    | inl same ↦
        absurd (true-ne-false (sym m ∙ ap (λ x. member x ks) (sym (eq_of_test k j same)) ∙ kept))
    | inr other ↦ without-gone s ks j w m (rw (kept, other) at h)
  ]
]

pub without-keeps :
    (s : Entries) (ks : List String) (j : String) (w : Option (List Item))
    → held (without ks s) j ≡ some w
    → held s j ≡ some w
without-keeps [] ks j w h = h
without-keeps ((k, v) ∷ s) ks j w h = elim (Bool-cases (member k ks)) [
  | inl gone ↦ elim (Bool-cases (k == j)) [
    | inl same ↦ absurd (
        without-gone s ks j w (ap (λ x. member x ks) (sym (eq_of_test k j same)) ∙ gone)
          (rw gone at h))
    | inr other ↦ rw other (without-keeps s ks j w (rw gone at h))
  ]
  | inr kept ↦ elim (Bool-cases (k == j)) [
    | inl same ↦ rw same (rw (kept, same) at h)
    | inr other ↦ rw other (without-keeps s ks j w (rw (kept, other) at h))
  ]
]

pub without-drops :
    (s : Entries) (ks : List String) (j : String)
    → member j ks ≡ true
    → held (without ks s) j ≡ none
without-drops s ks j m = elim (Option-cases (held (without ks s) j)) [
  | inl gone ↦ gone
  | inr (w, found) ↦ absurd (without-gone s ks j w m found)
]

pub set-stores :
    (s : Entries) (k : String) (v : Option (List Item)) (j : String) (w : Option (List Item))
    → held ((k, v) ∷ s) j ≡ some w
    → ((j ≡ k) × (w ≡ v)) ⊎ (held s j ≡ some w)
set-stores s k v j w h = elim (Bool-cases (k == j)) [
  | inl same ↦ inl (sym (eq_of_test k j same), some-injective (sym (rw same at h)))
  | inr other ↦ inr (rw other at h)
]

pub get-reads :
    (s : Store) (k : String) (w : Option (List Item))
    → redis.get s k ≡ replied (some w)
    → held s.entries k ≡ some w
get-reads s k w e = ground arith

unfoldable pub redis_laws : RedisLaws redis
redis_laws = record {
  stored = λ s. held s.entries;
  get_reads = λ s k w e. get-reads s k w e;
  set_stores = λ s k v ttl j w h. set-stores s.entries k v j w h;
  delete_keeps = λ s ks j w h. without-keeps s.entries ks j w h;
  delete_drops = λ s ks j e m. without-drops s.entries ks j m;
  incr_keeps = λ s k j w e h. h;
  expire_keeps = λ s k ttl j w h. h;
}

pub incr-replies :
    (s : Store) (k : String) (n : ℕ) → (redis.incr s k).0 ≡ replied n → n ≡ counted s.counters k + 1
incr-replies s k n e = ground arith

pub counted_self :
    (s : Store) (k : String) → counted (incremented s k).counters k ≡ counted s.counters k + 1
counted_self s k = rw (eq_self k) refl

pub counted_other :
    (s : Store) (k j : String) → j ≢ k → counted (incremented s k).counters j ≡ counted s.counters j
counted_other s k j other = elim (Bool-cases (k == j)) [
  | inl same ↦ absurd (other (sym (eq_of_test k j same)))
  | inr differ ↦ rw differ refl
]

unfoldable pub counter_laws : CounterLaws redis
counter_laws = record {
  count = λ s. counted s.counters;
  incr_replies = λ s k n e. incr-replies s k n e;
  incr_counts = λ s k n e. counted_self s k;
  incr_others = λ s k j other. counted_other s k j other;
  expire_others = λ s k ttl j. refl;
  set_others = λ s k v ttl j other. refl;
  delete_others = λ s ks j other. refl;
}

pub counter_answers : CounterAnswers redis
counter_answers = record {
  incr_answers = λ s k. (counted s.counters k + 1, refl);
  expire_answers = λ s k ttl. refl;
}

-- `n` letters.
abbrev pub unary : ℕ → String
unary zero = ""
unary (suc n) = "a" <> unary n

pub unary-Lacks : (n : ℕ) → Lacks b':' (codes (unary n))
unary-Lacks zero = tt
unary-Lacks (suc n) = rw (codes-append "a" (unary n)) (λ e. ground arith, unary-Lacks n)

unary-length : (n : ℕ) → length (codes (unary n)) ≡ n
unary-length zero = refl
unary-length (suc n) = rw (codes-append "a" (unary n)) (ap suc (unary-length n))

pub unary-injective : (m n : ℕ) → unary m ≡ unary n → m ≡ n
unary-injective m n e = sym (unary-length m) ∙ ap (λ s. length (codes s)) e ∙ unary-length n
