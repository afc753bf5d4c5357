-- ===== src/Routers/Flags/Changes.antt =====
-- The dicts of changes of `update_flag` (app/routers/flags.py): which fields are sent, `getattr` and
-- `setattr` on a flag and on a config, and `_drop_unchanged`.
pub mod Repeated
pub mod Settled
pub mod Typed
use thinking_feature_flag_se.Common.{
  ℕ, ◌<>◌, String, Bool, true, false, not, ◌&&◌, Option, none, some, List, [], ◌∷◌, ◌++◌, map, ◌==◌,
  nat_eq, string_eq, if◌then◌else◌, select,
}
use thinking_feature_flag_se.Values.{
  FlagType, flag_type_value, FlagValue, equals, equals_option, value_matches_type,
}
use thinking_feature_flag_se.Evaluation.{Rule}
use thinking_feature_flag_se.Models.{
  Flag, FlagEnvironmentConfig, FlagChange, ConfigChange, set_name, set_description,
  set_default_value, set_enabled, set_rollout_percentage, set_targeting_rules, set_value,
}
use thinking_feature_flag_se.Schemas.{
  FlagUpdate, Field, unset, sent, TargetingRule, is_set, value_of, model_dump,
}
use thinking_feature_flag_se.Outcome.{
  Outcome, ok, raised, http_exception, ◌>>=◌, ◌>>◌, raise_unless,
}

-- `_drop_unchanged`: what `differs` from the entity stays.
unfoldable pub drop_unchanged : {E C : Type 0} → (E → C → Bool) → E → List C → List C
drop_unchanged differs entity changes = select (differs entity) changes

-- Python's `==` on optional texts, on lists of values, on rules and on lists of rules
same_text : Option String → Option String → Bool
same_text none none = true
same_text (some s) (some t) = s == t
same_text _ _ = false

same_values : List FlagValue → List FlagValue → Bool
same_values [] [] = true
same_values (a ∷ as_) (b ∷ bs) = equals a b && same_values as_ bs
same_values _ _ = false

same_operands : Option (List FlagValue) → Option (List FlagValue) → Bool
unfolding same_values
same_operands none none = true
same_operands (some xs) (some ys) = same_values xs ys
same_operands _ _ = false

unfoldable pub same_rule : Rule → Rule → Bool
unfolding same_text same_operands equals_option
same_rule r s =
    same_text r.attribute s.attribute
    && same_text r.operator s.operator
    && same_operands r.values s.values
    && equals_option r.value s.value

unfoldable pub same_rules : List Rule → List Rule → Bool
unfolding same_rule
same_rules [] [] = true
same_rules (r ∷ rules) (s ∷ others) = same_rule r s && same_rules rules others
same_rules _ _ = false

abbrev pub same_bool : Bool → Bool → Bool
same_bool true b = b
same_bool false b = not b

-- `getattr(entity, k) != v`
unfoldable pub flag_differs : Flag → FlagChange → Bool
unfolding same_text equals
flag_differs f (set_name name) = not (f.name == name)
flag_differs f (set_description description) = not (same_text f.description description)
flag_differs f (set_default_value v) = not (equals f.default_value v)

unfoldable pub config_differs : FlagEnvironmentConfig → ConfigChange → Bool
unfolding same_rules equals
config_differs c (set_enabled enabled) = not (same_bool c.enabled enabled)
config_differs c (set_rollout_percentage p) = not (c.rollout_percentage == p)
config_differs c (set_targeting_rules rules) = not (same_rules c.targeting_rules rules)
config_differs c (set_value v) = not (equals c.value v)

-- The entry of the entity under the same key: `k: getattr(entity, k)`
unfoldable pub stored_flag : Flag → FlagChange → FlagChange
stored_flag f (set_name name) = set_name f.name
stored_flag f (set_description description) = set_description f.description
stored_flag f (set_default_value v) = set_default_value f.default_value

unfoldable pub stored_config : FlagEnvironmentConfig → ConfigChange → ConfigChange
stored_config c (set_enabled enabled) = set_enabled c.enabled
stored_config c (set_rollout_percentage p) = set_rollout_percentage c.rollout_percentage
stored_config c (set_targeting_rules rules) = set_targeting_rules c.targeting_rules
stored_config c (set_value v) = set_value c.value

-- `setattr(entity, k, v)`
unfoldable pub assign_flag : Flag → FlagChange → Flag
assign_flag f (set_name name) = record f { name = name }
assign_flag f (set_description description) = record f { description = description }
assign_flag f (set_default_value v) = record f { default_value = v }

unfoldable pub assign_config : FlagEnvironmentConfig → ConfigChange → FlagEnvironmentConfig
assign_config c (set_enabled enabled) = record c { enabled = enabled }
assign_config c (set_rollout_percentage p) = record c { rollout_percentage = p }
assign_config c (set_targeting_rules rules) = record c { targeting_rules = rules }
assign_config c (set_value v) = record c { value = v }

-- The loops over the dicts.
unfoldable pub assign_flag_all : Flag → List FlagChange → Flag
unfolding assign_flag
assign_flag_all f [] = f
assign_flag_all f (change ∷ changes) = assign_flag_all (assign_flag f change) changes

unfoldable pub assign_config_all : FlagEnvironmentConfig → List ConfigChange → FlagEnvironmentConfig
unfolding assign_config
assign_config_all c [] = c
assign_config_all c (change ∷ changes) = assign_config_all (assign_config c change) changes

-- An entry for a value that is not `None`.
abbrev pub entry : {A C : Type 0} → (A → C) → Option A → List C
entry change none = []
entry change (some value) = change value ∷ []

-- `if "field" in fields_set and payload.field is not None: changes["field"] = …`
abbrev pub when_sent : {A C : Type 0} → (A → C) → Field A → List C
when_sent change field = if is_set field then entry change (value_of field) else []

-- `if "field" in fields_set: …`, for a value that has to match the type of the flag
abbrev pub when_typed :
    {C : Type 0} → (FlagValue → C) → String → Field FlagValue → FlagType → Outcome (List C)
when_typed change name field type =
    if is_set field
    then (do
      raise_unless (value_matches_type (value_of field) type)
          (http_exception 422 (name <> " must be a " <> flag_type_value type))
      ok (entry change (value_of field)))
    else ok []

-- `changes["description"] = payload.description`, null included
abbrev pub when_described : Field String → List FlagChange
when_described unset = []
when_described (sent description) = set_description description ∷ []

unfoldable pub requested_flag_changes : FlagUpdate → FlagType → Outcome (List FlagChange)
requested_flag_changes payload type = do
  default_value ← when_typed set_default_value "default_value" payload.default_value type
  ok (when_sent set_name payload.name ++ when_described payload.description ++ default_value)

unfoldable pub requested_config_changes : FlagUpdate → FlagType → Outcome (List ConfigChange)
requested_config_changes payload type = do
  value ← when_typed set_value "value" payload.value type
  ok (
      when_sent set_enabled payload.enabled
      ++ when_sent set_rollout_percentage payload.rollout_percentage
      ++ when_sent (λ rules. set_targeting_rules (map model_dump rules)) payload.targeting_rules
      ++ value)
