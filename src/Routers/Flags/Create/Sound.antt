-- ===== src/Routers/Flags/Create/Sound.antt =====
-- `create_flag` (app/routers/flags.py), its seeded configs, and the well-formedness of the tables.
use thinking_feature_flag_se.Common.{
  ◌≡◌, refl, ◌≢◌, Bool, true, false, some, List, [], ◌∷◌, ◌++◌, arith, All, All-map, ◌==◌, nat_eq,
  string_eq, any, map,
}
use thinking_feature_flag_se.Values.{
  Environment, development, staging, production, environments, FlagType, boolean, string, number,
  FlagValue, bool, value_matches_type,
}
use thinking_feature_flag_se.Models.{Instant, ApiKey, Flag, Database, is_flag, add_audit}
use thinking_feature_flag_se.Models.Integrity.{IsSound, IsTyped, IsOwned, SameKey}
use thinking_feature_flag_se.Models.Appended.{append_flag-IsSound, In-append_last}
use thinking_feature_flag_se.Routers.Flags.Create.{
  seed_value, flag_conflicts, seeded_config, with_new_flag,
}

-- The seeded value has the type of the default; a boolean is seeded with the other boolean, and
-- any other value with itself.
pub seed_value-typed :
    (type : FlagType) (v : FlagValue)
    → value_matches_type (some v) type ≡ true
    → value_matches_type (some (seed_value type v)) type ≡ true
unfolding seed_value value_matches_type
seed_value-typed boolean (bool b) h = refl
seed_value-typed boolean v h = h
seed_value-typed string v h = h
seed_value-typed number v h = h

any-false {ℓ} :
    {A : Type ℓ} (test : A → Bool) (xs : List A)
    → any test xs ≡ false
    → All (λ x. test x ≡ false) xs
any-false test [] h = tt
any-false test (x ∷ xs) h = (ground arith, any-false test xs (ground arith))

pub no_conflict-ids :
    (flag : Flag) (db : Database)
    → flag_conflicts flag db ≡ false
    → All (λ (g : Flag). g.id ≢ flag.id) db.flags
unfolding flag_conflicts
no_conflict-ids flag db h =
    All-map (λ g differs e. ground arith) db.flags
      (any-false (λ (f : Flag). f.id == flag.id) db.flags (ground arith))

no_conflict-keys :
    (flag : Flag) (db : Database)
    → flag_conflicts flag db ≡ false
    → All (λ g. ¬ (SameKey g flag)) db.flags
unfolding flag_conflicts
no_conflict-keys flag db h =
    All-map (λ g differs e. ground (arith, string_eq.same_iff g.key flag.key)) db.flags
      (any-false (is_flag flag.tenant_id flag.key) db.flags (ground arith))

seeded-IsOwned :
    (flag : Flag) (now : Instant) (flags : List Flag)
    → IsTyped flag
    → (environment : Environment)
    → IsOwned
        (flags ++ flag ∷ [])
        (seeded_config flag (seed_value flag.type flag.default_value) now environment)
seeded-IsOwned flag now flags typed environment = record {
  owner = flag;
  place = In-append_last flag flags;
  same_id = refl;
  same_tenant = refl;
  value_typed = seed_value-typed flag.type flag.default_value typed;
  in_range = omega arith;
}

-- A flag that meets no constraint leaves the tables well-formed.
pub with_new_flag-IsSound :
    (flag : Flag) (api_key : ApiKey) (now : Instant) (db : Database)
    → IsTyped flag
    → flag_conflicts flag db ≡ false
    → IsSound db
    → IsSound (with_new_flag flag api_key now db)
unfolding with_new_flag add_audit
with_new_flag-IsSound flag api_key now db typed free s =
    let s' =
      append_flag-IsSound flag
        (map (seeded_config flag (seed_value flag.type flag.default_value) now) environments)
        (no_conflict-ids flag db free) (no_conflict-keys flag db free) typed
        (
          seeded-IsOwned flag now db.flags typed development,
          (
            seeded-IsOwned flag now db.flags typed staging,
            (seeded-IsOwned flag now db.flags typed production, tt),
          ),
        )
        (refl, (refl, (refl, tt))) ((λ e. cc, (λ e. cc, tt)), ((λ e. cc, tt), (tt, tt))) s in
    record {
      distinct_ids = s'.distinct_ids;
      distinct_keys = s'.distinct_keys;
      typed = s'.typed;
      owned = s'.owned;
      one_per_place = s'.one_per_place;
    }
