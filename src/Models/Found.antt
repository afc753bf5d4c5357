-- ===== src/Models/Found.antt =====
-- What the queries of app/models.py find in well-formed tables: the one row with the keys asked for.
use thinking_feature_flag_se.Common.{
  ◌≡◌, refl, ap, Bool, true, some, List, [], ◌∷◌, arith, In, here, there, Bool-cases, inl, inr,
  first, eq_self, eq_of_test, nat_eq, string_eq,
}
use thinking_feature_flag_se.Values.{environment_eq}
use thinking_feature_flag_se.Models.{
  Flag, FlagEnvironmentConfig, Database, find_flag, find_config, is_flag, is_config,
  update_config_row,
}
use thinking_feature_flag_se.Models.Integrity.{IsSound, SamePlace, OnePerPlace-eq, DistinctKeys-eq}

-- A row that passes the test of a search is found, where it alone passes.
first_unique {ℓ} :
    {A : Type ℓ} (test : A → Bool) (xs : List A) {a : A}
    → In a xs
    → test a ≡ true
    → ((b : A) → In b xs → test b ≡ true → b ≡ a)
    → first test xs ≡ some a
first_unique test [] m hit only = elim m [ ]
first_unique test (x ∷ xs) {a} here hit only = rw hit refl
first_unique test (x ∷ xs) {a} (there m) hit only = elim (Bool-cases (test x)) [
  | inl e ↦ rw e (ap some (only x here e))
  | inr e ↦ rw e (first_unique test xs m hit (λ b n. only b (there n)))
]

pub find_flag_unique :
    (db : Database) {f : Flag}
    → IsSound db
    → In f db.flags
    → find_flag f.tenant_id f.key db ≡ some f
unfolding find_flag
find_flag_unique db {f} sound place =
    first_unique (is_flag f.tenant_id f.key) db.flags place
      (rw (eq_self f.tenant_id, eq_self f.key) refl)
      (λ g m hit.
        DistinctKeys-eq sound.distinct_keys m place
          (ground arith, eq_of_test g.key f.key (ground arith)))

pub find_config_unique :
    (db : Database) {c : FlagEnvironmentConfig}
    → IsSound db
    → In c db.configs
    → find_config c.flag_id c.environment db ≡ some c
unfolding find_config
find_config_unique db {c} sound place =
    first_unique (is_config c.flag_id c.environment) db.configs place
      (rw (eq_self c.flag_id, eq_self c.environment) refl)
      (λ d m hit.
        OnePerPlace-eq sound.one_per_place m place
          (ground arith, eq_of_test d.environment c.environment (ground arith)))

pub In-update_config_self :
    (new : FlagEnvironmentConfig) {c : FlagEnvironmentConfig} {configs : List FlagEnvironmentConfig}
    → In c configs
    → SamePlace c new
    → In new (update_config_row new configs)
unfolding update_config_row
In-update_config_self new {c} {configs} here same =
    let hit : is_config new.flag_id new.environment c ≡ true =
      rw (same.0, same.1) (rw (eq_self new.flag_id, eq_self new.environment) refl) in
    rw hit here
In-update_config_self new (there m) same = there (In-update_config_self new m same)
