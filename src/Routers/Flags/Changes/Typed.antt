-- ===== src/Routers/Flags/Changes/Typed.antt =====
-- The type checks of `update_flag` (app/routers/flags.py): what is requested has the type of the flag,
-- and what is assigned keeps it.
use thinking_feature_flag_se.Common.{
  ◌≡◌, refl, subst, true, false, none, some, List, [], ◌∷◌, map, arith, All, All-append, Bool-cases,
  inl, inr, String, ◌∙◌,
}
use thinking_feature_flag_se.Values.{FlagType, FlagValue, value_matches_type}
use thinking_feature_flag_se.Models.{
  Flag, FlagEnvironmentConfig, FlagChange, ConfigChange, set_name, set_description,
  set_default_value, set_enabled, set_rollout_percentage, set_targeting_rules, set_value,
}
use thinking_feature_flag_se.Models.Integrity.{IsTyped}
use thinking_feature_flag_se.Models.Preserved.{IsVersion}
use thinking_feature_flag_se.Schemas.{FlagUpdate, Field, unset, sent, TargetingRule, model_dump}
use thinking_feature_flag_se.Outcome.{ok, >>=-eq-ok}
use thinking_feature_flag_se.Routers.Flags.Changes.{
  when_sent, when_typed, when_described, assign_flag, assign_flag_all, assign_config,
  assign_config_all, requested_flag_changes, requested_config_changes,
}

abbrev pub FlagChangeTyped : FlagType → FlagChange → Type 0
FlagChangeTyped type (set_default_value v) = value_matches_type (some v) type ≡ true
FlagChangeTyped type _ = Unit

abbrev pub ConfigChangeTyped : FlagType → ConfigChange → Type 0
ConfigChangeTyped type (set_value v) = value_matches_type (some v) type ≡ true
ConfigChangeTyped type _ = Unit

pub All-when_sent :
    {A C : Type 0} (P : C → Type 0) (change : A → C) (field : Field A)
    → ((a : A) → P (change a))
    → All P (when_sent change field)
All-when_sent P change unset h = tt
All-when_sent P change (sent none) h = tt
All-when_sent P change (sent (some a)) h = (h a, tt)

pub none_untyped : (type : FlagType) → value_matches_type none type ≡ false
unfolding value_matches_type
none_untyped type = refl

pub All-when_typed :
    {C : Type 0} (P : C → Type 0) (change : FlagValue → C) (name : String) (field : Field FlagValue)
    (type : FlagType) {changes : List C}
    → ((v : FlagValue) → value_matches_type (some v) type ≡ true → P (change v))
    → when_typed change name field type ≡ ok changes
    → All P changes
All-when_typed {C} P change name unset type {changes} h e =
    let empty : ◌≡◌ {A = List C} [] changes = ground arith in subst (All P) empty tt
All-when_typed P change name (sent none) type h e = absurd (ground (arith, none_untyped type))
All-when_typed P change name (sent (some v)) type {changes} h e =
    elim (Bool-cases (value_matches_type (some v) type)) [
      | inl matched ↦
          let single : change v ∷ [] ≡ changes = ground arith in
          subst (All P) single (h v matched, tt)
      | inr other ↦ absurd (ground arith)
    ]

-- The flag changes that a body asks for have the type of the flag.
pub requested_flag_changes-typed :
    (payload : FlagUpdate) (type : FlagType) {changes : List FlagChange}
    → requested_flag_changes payload type ≡ ok changes
    → All (FlagChangeTyped type) changes
unfolding requested_flag_changes
requested_flag_changes-typed payload type e =
    let (default_value, checked, built) =
      >>=-eq-ok (when_typed set_default_value "default_value" payload.default_value type) _ e in
    subst (All (FlagChangeTyped type)) (ground arith) (
      All-append _ (when_sent set_name payload.name) _
        (All-when_sent _ set_name payload.name (λ a. tt))
        (All-append _ (when_described payload.description) default_value
          (described payload.description)
          (All-when_typed _ set_default_value "default_value" payload.default_value type (λ v m. m)
            checked)))
  where
    described : (field : Field String) → All (FlagChangeTyped type) (when_described field)
    described unset = tt
    described (sent d) = (tt, tt)

-- The config changes that a body asks for have the type of the flag.
pub requested_config_changes-typed :
    (payload : FlagUpdate) (type : FlagType) {changes : List ConfigChange}
    → requested_config_changes payload type ≡ ok changes
    → All (ConfigChangeTyped type) changes
unfolding requested_config_changes
requested_config_changes-typed payload type e =
    let (value, checked, built) = >>=-eq-ok (when_typed set_value "value" payload.value type) _ e in
    subst (All (ConfigChangeTyped type)) (ground arith) (
      All-append _ (when_sent set_enabled payload.enabled) _
        (All-when_sent _ set_enabled payload.enabled (λ a. tt))
        (All-append _ (when_sent set_rollout_percentage payload.rollout_percentage) _
          (All-when_sent _ set_rollout_percentage payload.rollout_percentage (λ a. tt))
          (All-append _ (when_sent rules payload.targeting_rules) value
            (All-when_sent _ rules payload.targeting_rules (λ a. tt))
            (All-when_typed _ set_value "value" payload.value type (λ v m. m) checked))))
  where
    rules : List TargetingRule → ConfigChange
    rules rs = set_targeting_rules (map model_dump rs)

assign_flag-IsVersion : (f : Flag) (change : FlagChange) → IsVersion f (assign_flag f change)
unfolding assign_flag
assign_flag-IsVersion f (set_name n) = ground arith
assign_flag-IsVersion f change = ground arith

IsVersion-trans : {f g h : Flag} → IsVersion f g → IsVersion g h → IsVersion f h
IsVersion-trans v w = record {
  same_id = w.same_id ∙ v.same_id;
  same_tenant = w.same_tenant ∙ v.same_tenant;
  same_key = w.same_key ∙ v.same_key;
  same_type = w.same_type ∙ v.same_type;
}

-- Assigning flag fields makes a new version of the row.
pub assign_flag_all-IsVersion :
    (f : Flag) (changes : List FlagChange) → IsVersion f (assign_flag_all f changes)
unfolding assign_flag_all
assign_flag_all-IsVersion f [] = record {
  same_id = refl;
  same_tenant = refl;
  same_key = refl;
  same_type = refl;
}
assign_flag_all-IsVersion f (change ∷ changes) =
    IsVersion-trans (assign_flag-IsVersion f change)
      (assign_flag_all-IsVersion (assign_flag f change) changes)

assign_flag-IsTyped :
    (f : Flag) (change : FlagChange)
    → FlagChangeTyped f.type change
    → IsTyped f
    → IsTyped (assign_flag f change)
unfolding assign_flag
assign_flag-IsTyped f (set_default_value v) h t = h
assign_flag-IsTyped f (set_name n) h t = t
assign_flag-IsTyped f (set_description d) h t = t

-- Assigning checked fields keeps the default typed.
pub assign_flag_all-IsTyped :
    (f : Flag) (changes : List FlagChange)
    → All (FlagChangeTyped f.type) changes
    → IsTyped f
    → IsTyped (assign_flag_all f changes)
unfolding assign_flag_all
assign_flag_all-IsTyped f [] h t = t
assign_flag_all-IsTyped f (change ∷ changes) h t =
    assign_flag_all-IsTyped (assign_flag f change) changes
      (rw ((assign_flag-IsVersion f change).same_type) (h.1)) (assign_flag-IsTyped f change h.0 t)

-- What an assignment to a config leaves alone, and what it checks.
pub record KeepsConfig (type : FlagType) (c d : FlagEnvironmentConfig) : Type 0 where
  pub same_flag : d.flag_id ≡ c.flag_id
  pub same_environment : d.environment ≡ c.environment
  pub same_tenant : d.tenant_id ≡ c.tenant_id
  pub value_typed :
      value_matches_type (some c.value) type ≡ true → value_matches_type (some d.value) type ≡ true

assign_config-keeps :
    (type : FlagType) (c : FlagEnvironmentConfig) (change : ConfigChange)
    → ConfigChangeTyped type change
    → KeepsConfig type c (assign_config c change)
unfolding assign_config
assign_config-keeps type c (set_value v) h = record {
  same_flag = refl;
  same_environment = refl;
  same_tenant = refl;
  value_typed = λ t. h;
}
assign_config-keeps type c (set_enabled b) h = record {
  same_flag = refl;
  same_environment = refl;
  same_tenant = refl;
  value_typed = λ t. t;
}
assign_config-keeps type c (set_rollout_percentage p) h = record {
  same_flag = refl;
  same_environment = refl;
  same_tenant = refl;
  value_typed = λ t. t;
}
assign_config-keeps type c (set_targeting_rules r) h = record {
  same_flag = refl;
  same_environment = refl;
  same_tenant = refl;
  value_typed = λ t. t;
}

-- Assigning checked fields leaves the keys of a config alone, and its value typed.
pub assign_config_all-keeps :
    (type : FlagType) (c : FlagEnvironmentConfig) (changes : List ConfigChange)
    → All (ConfigChangeTyped type) changes
    → KeepsConfig type c (assign_config_all c changes)
unfolding assign_config_all
assign_config_all-keeps type c [] h = record {
  same_flag = refl;
  same_environment = refl;
  same_tenant = refl;
  value_typed = λ t. t;
}
assign_config_all-keeps type c (change ∷ changes) h =
    let first = assign_config-keeps type c change h.0 in
    let rest = assign_config_all-keeps type (assign_config c change) changes h.1 in
    record {
      same_flag = rest.same_flag ∙ first.same_flag;
      same_environment = rest.same_environment ∙ first.same_environment;
      same_tenant = rest.same_tenant ∙ first.same_tenant;
      value_typed = λ t. rest.value_typed (first.value_typed t);
    }
