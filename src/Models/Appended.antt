-- ===== src/Models/Appended.antt =====
-- A new flag with its configs (the INSERTs of app/routers/flags.py) and the well-formedness of the
-- tables.
use thinking_feature_flag_se.Common.{
  ◌≡◌, sym, ◌∙◌, ◌≢◌, List, [], ◌∷◌, ◌++◌, nat_eq, string_eq, All, All-at, All-map, All-append, In,
  here, there,
}
use thinking_feature_flag_se.Values.{environment_eq}
use thinking_feature_flag_se.Models.{Uuid, Flag, FlagEnvironmentConfig, Database}
use thinking_feature_flag_se.Models.Integrity.{
  SamePlace, OnePerPlace, DistinctIds, DistinctKeys, SameKey, IsTyped, IsOwned, IsSound,
}

In-append_left {ℓ} : {A : Type ℓ} {a : A} {xs : List A} (ys : List A) → In a xs → In a (xs ++ ys)
In-append_left ys here = here
In-append_left ys (there m) = there (In-append_left ys m)

pub In-append_last {ℓ} : {A : Type ℓ} (a : A) (xs : List A) → In a (xs ++ a ∷ [])
In-append_last a [] = here
In-append_last a (x ∷ xs) = there (In-append_last a xs)

append-DistinctIds :
    (f : Flag) (flags : List Flag)
    → All (λ (g : Flag). g.id ≢ f.id) flags
    → DistinctIds flags
    → DistinctIds (flags ++ f ∷ [])
append-DistinctIds f [] fresh h = (tt, tt)
append-DistinctIds f (g ∷ flags) fresh h = (
  All-append _ flags (f ∷ []) h.0 ((λ e. fresh.0 (sym e)), tt),
  append-DistinctIds f flags fresh.1 h.1,
)

append-DistinctKeys :
    (f : Flag) (flags : List Flag)
    → All (λ g. ¬ (SameKey g f)) flags
    → DistinctKeys flags
    → DistinctKeys (flags ++ f ∷ [])
append-DistinctKeys f [] fresh h = (tt, tt)
append-DistinctKeys f (g ∷ flags) fresh h = (
  All-append _ flags (f ∷ []) h.0 ((λ e. fresh.0 (sym e.0, sym e.1)), tt),
  append-DistinctKeys f flags fresh.1 h.1,
)

append-OnePerPlace :
    (id : Uuid) (configs more : List FlagEnvironmentConfig)
    → All (λ (c : FlagEnvironmentConfig). c.flag_id ≢ id) configs
    → All (λ (d : FlagEnvironmentConfig). d.flag_id ≡ id) more
    → OnePerPlace configs
    → OnePerPlace more
    → OnePerPlace (configs ++ more)
append-OnePerPlace id [] more others own h h' = h'
append-OnePerPlace id (c ∷ configs) more others own h h' = (
  All-append (λ d. ¬ (SamePlace d c)) configs more h.0
      (All-map (λ d e same. others.0 (sym same.0 ∙ e)) more own),
  append-OnePerPlace id configs more others.1 own h.1 h',
)

-- A typed flag with a new id and a new key, and configs that it owns, leave the tables well-formed.
pub append_flag-IsSound :
    {db : Database} (f : Flag) (configs : List FlagEnvironmentConfig)
    → All (λ (g : Flag). g.id ≢ f.id) db.flags
    → All (λ g. ¬ (SameKey g f)) db.flags
    → IsTyped f
    → All (IsOwned (db.flags ++ f ∷ [])) configs
    → All (λ (c : FlagEnvironmentConfig). c.flag_id ≡ f.id) configs
    → OnePerPlace configs
    → IsSound db
    → IsSound (record db { flags = db.flags ++ f ∷ []; configs = db.configs ++ configs })
append_flag-IsSound {db} f configs new_id new_key typed owned own one s = record {
  distinct_ids = append-DistinctIds f db.flags new_id s.distinct_ids;
  distinct_keys = append-DistinctKeys f db.flags new_key s.distinct_keys;
  typed = All-append IsTyped db.flags (f ∷ []) s.typed (typed, tt);
  owned =
      All-append _ db.configs configs
        (All-map
          (λ c o. record {
            owner = o.owner;
            place = In-append_left (f ∷ []) o.place;
            same_id = o.same_id;
            same_tenant = o.same_tenant;
            value_typed = o.value_typed;
            in_range = o.in_range;
          })
          db.configs s.owned)
        owned;
  one_per_place =
      append-OnePerPlace f.id db.configs configs
        (All-map {Q = λ (c : FlagEnvironmentConfig). c.flag_id ≢ f.id}
          (λ c (o : IsOwned db.flags c) e. All-at _ o.place new_id (o.same_id ∙ e)) db.configs
          s.owned)
        own s.one_per_place one;
}
