-- ===== src/Routers/Flags/Changes/Repeated.antt =====
-- The dicts of changes of `update_flag` asked for again (app/routers/flags.py): on the row that they
-- have changed, `_drop_unchanged` leaves nothing of them.
use thinking_feature_flag_se.Common.{
  ◌≡◌, ◌≢◌, refl, subst, ℕ, String, Bool, true, false, Option, none, some, List, [], ◌∷◌, ◌++◌, map,
  arith, Bool-cases, inl, inr, eq_self, nat_eq, string_eq,
}
use thinking_feature_flag_se.Values.{FlagType, FlagValue, equals_option, value_matches_type}
use thinking_feature_flag_se.Values.Equality.{equals_refl}
use thinking_feature_flag_se.Evaluation.{Rule}
use thinking_feature_flag_se.Models.{
  Flag, FlagEnvironmentConfig, FlagChange, ConfigChange, set_name, set_description,
  set_default_value, set_enabled, set_rollout_percentage, set_targeting_rules, set_value,
}
use thinking_feature_flag_se.Schemas.{FlagUpdate, Field, unset, sent, TargetingRule, model_dump}
use thinking_feature_flag_se.Outcome.{ok, >>=-eq-ok}
use thinking_feature_flag_se.Routers.Flags.Changes.{
  drop_unchanged, same_text, same_values, same_operands, same_rule, same_rules, same_bool,
  flag_differs, config_differs, assign_flag, assign_flag_all, assign_config, assign_config_all,
  when_typed, when_described, requested_flag_changes, requested_config_changes,
}
use thinking_feature_flag_se.Routers.Flags.Changes.Typed.{none_untyped}
use thinking_feature_flag_se.Routers.Flags.Changes.Settled.{
  KeysFrom, KeysFrom-weaken, KeysFrom-when_sent, assign_all, drop_unchanged-assign_all,
}

same_text_refl : (t : Option String) → same_text t t ≡ true
unfolding same_text
same_text_refl none = refl
same_text_refl (some s) = eq_self s

same_values_refl : (vs : List FlagValue) → same_values vs vs ≡ true
unfolding same_values
same_values_refl [] = refl
same_values_refl (v ∷ vs) = rw (equals_refl v) (same_values_refl vs)

same_operands_refl : (vs : Option (List FlagValue)) → same_operands vs vs ≡ true
unfolding same_operands
same_operands_refl none = refl
same_operands_refl (some vs) = same_values_refl vs

equals_option_refl : (v : Option FlagValue) → equals_option v v ≡ true
unfolding equals_option
equals_option_refl none = refl
equals_option_refl (some v) = equals_refl v

same_rules_refl : (rules : List Rule) → same_rules rules rules ≡ true
unfolding same_rules same_rule
same_rules_refl [] = refl
same_rules_refl (r ∷ rules) =
    rw
      (
        same_text_refl r.attribute,
        same_text_refl r.operator,
        same_operands_refl r.values,
        equals_option_refl r.value,
      )
      (same_rules_refl rules)

same_bool_refl : (b : Bool) → same_bool b b ≡ true
same_bool_refl true = refl
same_bool_refl false = refl

-- The keys of a dict of flag changes, in the order in which the handler enters them.
flag_key_of : FlagChange → ℕ
flag_key_of (set_name n) = 0
flag_key_of (set_description d) = 1
flag_key_of (set_default_value v) = 2

config_key_of : ConfigChange → ℕ
config_key_of (set_enabled b) = 0
config_key_of (set_rollout_percentage p) = 1
config_key_of (set_targeting_rules r) = 2
config_key_of (set_value v) = 3

flag_differs-assign :
    (f : Flag) (change : FlagChange) → flag_differs (assign_flag f change) change ≡ false
unfolding flag_differs assign_flag
flag_differs-assign f (set_name n) = rw (eq_self n) refl
flag_differs-assign f (set_description d) = rw (same_text_refl d) refl
flag_differs-assign f (set_default_value v) = rw (equals_refl v) refl

flag_differs_elsewhere :
    (f : Flag) (c d : FlagChange)
    → flag_key_of c ≢ flag_key_of d
    → flag_differs (assign_flag f c) d ≡ flag_differs f d
unfolding flag_differs assign_flag flag_key_of
flag_differs_elsewhere f (set_name n) (set_name n') apart = absurd (apart refl)
flag_differs_elsewhere f (set_name n) d apart = refl
flag_differs_elsewhere f (set_description n) (set_description n') apart = absurd (apart refl)
flag_differs_elsewhere f (set_description n) d apart = refl
flag_differs_elsewhere f (set_default_value n) (set_default_value n') apart = absurd (apart refl)
flag_differs_elsewhere f (set_default_value n) d apart = refl

config_differs-assign :
    (c : FlagEnvironmentConfig) (change : ConfigChange)
    → config_differs (assign_config c change) change ≡ false
unfolding config_differs assign_config
config_differs-assign c (set_enabled b) = rw (same_bool_refl b) refl
config_differs-assign c (set_rollout_percentage p) = rw (eq_self p) refl
config_differs-assign c (set_targeting_rules r) = rw (same_rules_refl r) refl
config_differs-assign c (set_value v) = rw (equals_refl v) refl

config_differs_elsewhere :
    (e : FlagEnvironmentConfig) (c d : ConfigChange)
    → config_key_of c ≢ config_key_of d
    → config_differs (assign_config e c) d ≡ config_differs e d
unfolding config_differs assign_config config_key_of
config_differs_elsewhere e (set_enabled b) (set_enabled b') apart = absurd (apart refl)
config_differs_elsewhere e (set_enabled b) d apart = refl
config_differs_elsewhere e (set_rollout_percentage p) (set_rollout_percentage p') apart =
    absurd (apart refl)
config_differs_elsewhere e (set_rollout_percentage p) d apart = refl
config_differs_elsewhere e (set_targeting_rules r) (set_targeting_rules r') apart =
    absurd (apart refl)
config_differs_elsewhere e (set_targeting_rules r) d apart = refl
config_differs_elsewhere e (set_value v) (set_value v') apart = absurd (apart refl)
config_differs_elsewhere e (set_value v) d apart = refl

-- The entry for a typed value comes last.
KeysFrom-when_typed :
    {E C : Type 0} (differs : E → C → Bool) (assign : E → C → E) (key : C → ℕ)
    (change : FlagValue → C) (name : String) (field : Field FlagValue) (type : FlagType) (n : ℕ)
    {changes : List C}
    → ((v : FlagValue) → key (change v) ≡ n)
    → when_typed change name field type ≡ ok changes
    → KeysFrom differs assign key n changes
KeysFrom-when_typed {C = C} differs assign key change name unset type n {changes} same e =
    let empty : ◌≡◌ {A = List C} [] changes = ground arith in
    subst (KeysFrom differs assign key n) empty tt
KeysFrom-when_typed differs assign key change name (sent none) type n same e =
    absurd (ground (arith, none_untyped type))
KeysFrom-when_typed differs assign key change name (sent (some v)) type n {changes} same e =
    elim (Bool-cases (value_matches_type (some v) type)) [
      | inl matched ↦
          let single : change v ∷ [] ≡ changes = ground arith in
          subst (KeysFrom differs assign key n) single (omega (arith, same v), tt)
      | inr other ↦ absurd (ground arith)
    ]

abbrev FlagKeys : ℕ → List FlagChange → Type 0
FlagKeys = KeysFrom flag_differs assign_flag flag_key_of

abbrev ConfigKeys : ℕ → List ConfigChange → Type 0
ConfigKeys = KeysFrom config_differs assign_config config_key_of

requested-FlagKeys :
    (payload : FlagUpdate) (type : FlagType) {requested : List FlagChange}
    → requested_flag_changes payload type ≡ ok requested
    → FlagKeys 0 requested
unfolding requested_flag_changes flag_key_of
requested-FlagKeys payload type {requested} e =
    let (value, checked, built) =
      >>=-eq-ok (when_typed set_default_value "default_value" payload.default_value type) _ e in
    let last : FlagKeys 2 value =
      KeysFrom-when_typed flag_differs assign_flag flag_key_of set_default_value "default_value"
        payload.default_value type 2 (λ v. refl) checked in
    subst (FlagKeys 0) (ground arith) (
      KeysFrom-when_sent flag_differs assign_flag flag_key_of 0 set_name payload.name
        (when_described payload.description ++ value) (λ n. refl)
        (described payload.description value last))
  where
    described :
        (field : Field String) (rest : List FlagChange)
        → FlagKeys 2 rest
        → FlagKeys 1 (when_described field ++ rest)
    described unset rest h =
        KeysFrom-weaken flag_differs assign_flag flag_key_of rest (omega arith) h
    described (sent d) rest h = (omega arith, h)

requested-ConfigKeys :
    (payload : FlagUpdate) (type : FlagType) {requested : List ConfigChange}
    → requested_config_changes payload type ≡ ok requested
    → ConfigKeys 0 requested
unfolding requested_config_changes config_key_of
requested-ConfigKeys payload type {requested} e =
    let (value, checked, built) = >>=-eq-ok (when_typed set_value "value" payload.value type) _ e in
    let rules = λ (rs : List TargetingRule). set_targeting_rules (map model_dump rs) in
    let last : ConfigKeys 3 value =
      KeysFrom-when_typed config_differs assign_config config_key_of set_value "value" payload.value
        type 3 (λ v. refl) checked in
    subst (ConfigKeys 0) (ground arith) (
      KeysFrom-when_sent config_differs assign_config config_key_of 0 set_enabled payload.enabled _
        (λ b. refl)
        (KeysFrom-when_sent config_differs assign_config config_key_of 1 set_rollout_percentage
          payload.rollout_percentage _ (λ p. refl)
          (KeysFrom-when_sent config_differs assign_config config_key_of 2 rules
            payload.targeting_rules value (λ r. refl) last)))

assign_flag_all-assign_all :
    (f : Flag) (changes : List FlagChange)
    → assign_flag_all f changes ≡ assign_all flag_differs assign_flag flag_key_of f changes
unfolding assign_flag_all
assign_flag_all-assign_all f [] = refl
assign_flag_all-assign_all f (c ∷ changes) = assign_flag_all-assign_all (assign_flag f c) changes

assign_config_all-assign_all :
    (c : FlagEnvironmentConfig) (changes : List ConfigChange)
    → assign_config_all c changes ≡ assign_all config_differs assign_config config_key_of c changes
unfolding assign_config_all
assign_config_all-assign_all c [] = refl
assign_config_all-assign_all c (change ∷ changes) =
    assign_config_all-assign_all (assign_config c change) changes

-- The flag fields that a body asks for are settled on a row to which they were assigned.
pub requested_flag_changes-settled :
    (payload : FlagUpdate) (f : Flag) {requested : List FlagChange}
    → requested_flag_changes payload f.type ≡ ok requested
    → drop_unchanged flag_differs
        (assign_flag_all f (drop_unchanged flag_differs f requested))
        requested
      ≡ []
requested_flag_changes-settled payload f {requested} e =
    rw (assign_flag_all-assign_all f (drop_unchanged flag_differs f requested)) (
      drop_unchanged-assign_all flag_differs assign_flag flag_key_of flag_differs-assign
        flag_differs_elsewhere f 0 requested (requested-FlagKeys payload f.type e))

-- So are the config fields that it asks for, on the config.
pub requested_config_changes-settled :
    (payload : FlagUpdate) (type : FlagType) (c : FlagEnvironmentConfig)
    {requested : List ConfigChange}
    → requested_config_changes payload type ≡ ok requested
    → drop_unchanged config_differs
        (assign_config_all c (drop_unchanged config_differs c requested))
        requested
      ≡ []
requested_config_changes-settled payload type c {requested} e =
    rw (assign_config_all-assign_all c (drop_unchanged config_differs c requested)) (
      drop_unchanged-assign_all config_differs assign_config config_key_of config_differs-assign
        config_differs_elsewhere c 0 requested (requested-ConfigKeys payload type e))
