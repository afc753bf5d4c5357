-- ===== src/Routers/Evaluate/Typed.antt =====
-- The types of the values that an evaluation endpoint serves (app/routers/evaluate.py).
use thinking_feature_flag_se.Common.{
  ◌≡◌, refl, sym, ap, ◌∙◌, String, true, some, All, All-at, All-map, ne_of_test, string_eq,
}
use thinking_feature_flag_se.Values.{
  Environment, FlagType, boolean, string, number, flag_type_value, value_matches_type,
}
use thinking_feature_flag_se.Evaluation.{Platform, Context, Rule, FlagSnapshot, evaluate}
use thinking_feature_flag_se.Evaluation.Typed.{evaluate-Typed}
use thinking_feature_flag_se.Models.{Uuid, Flag, Database}
use thinking_feature_flag_se.Models.Integrity.{IsSound, IsTyped, IsOwned, DistinctIds-eq}
use thinking_feature_flag_se.Routers.Evaluate.{snapshot_of, compile}
use thinking_feature_flag_se.Routers.Evaluate.Served.{IsServed, compile-IsServed}

flag_type_value-injective : (a b : FlagType) → flag_type_value a ≡ flag_type_value b → a ≡ b
flag_type_value-injective boolean boolean e = refl
flag_type_value-injective string string e = refl
flag_type_value-injective number number e = refl
flag_type_value-injective boolean string e = absurd (ne_of_test "boolean" "string" refl e)
flag_type_value-injective boolean number e = absurd (ne_of_test "boolean" "number" refl e)
flag_type_value-injective string boolean e = absurd (ne_of_test "string" "boolean" refl e)
flag_type_value-injective string number e = absurd (ne_of_test "string" "number" refl e)
flag_type_value-injective number boolean e = absurd (ne_of_test "number" "boolean" refl e)
flag_type_value-injective number string e = absurd (ne_of_test "number" "string" refl e)

module _ (platform : Platform) where
  -- If the rules of a snapshot give values of the flag's type, whatever it evaluates to has that type.
  abbrev pub ServesType : FlagSnapshot → Type 0
  ServesType s =
      (type : FlagType)
      → s.type ≡ flag_type_value type
      → All (λ (rule : Rule). value_matches_type rule.value type ≡ true) s.targeting_rules
      → (user_id : String) (context : Context)
      → value_matches_type (evaluate platform s user_id context).value type ≡ true

  -- Over well-formed tables, a flag of the compiled set whose rules give values of its type evaluates to
  -- a value of its type, for every user and context.
  pub compile-ServesType :
      (db : Database) (tenant_id : Uuid) (environment : Environment)
      → IsSound db
      → All ServesType (compile db tenant_id environment)
  unfolding snapshot_of
  compile-ServesType db tenant_id environment sound =
      All-map {Q = ServesType}
        (λ s (served : IsServed db tenant_id environment s) type named ruled user_id context.
          let owned : IsOwned db.flags served.config =
            All-at (IsOwned db.flags) served.config_place sound.owned in
          let flag_type : served.flag.type ≡ type =
            flag_type_value-injective served.flag.type type
              (sym (ap (λ (x : FlagSnapshot). x.type) served.compiled) ∙ named) in
          let owner : owned.owner ≡ served.flag =
            DistinctIds-eq sound.distinct_ids owned.place served.flag_place
              (owned.same_id ∙ served.same_flag) in
          let owner_type : owned.owner.type ≡ type = ap (λ (f : Flag). f.type) owner ∙ flag_type in
          evaluate-Typed platform user_id s type context
            (ap (λ (x : FlagSnapshot). value_matches_type (some x.default_value) type)
                served.compiled
              ∙ ap (λ t. value_matches_type (some served.flag.default_value) t) (sym flag_type)
              ∙ All-at IsTyped served.flag_place sound.typed)
            (ap (λ (x : FlagSnapshot). value_matches_type (some x.value) type) served.compiled
              ∙ ap (λ t. value_matches_type (some served.config.value) t) (sym owner_type)
              ∙ owned.value_typed)
            ruled)
        (compile db tenant_id environment) (compile-IsServed db tenant_id environment)
