-- ===== src/Schemas.antt =====
-- Request bodies and their validators (thinking-feature-flag-service/app/schemas.py). pydantic's own
-- parsing of JSON is not modelled: a body is what it has parsed, with the types of its fields.
pub mod Keys
use thinking_feature_flag_se.Common.{
  ℕ, ◌≡◌, refl, String, Bool, true, false, not, ◌&&◌, ◌||◌, Option, none, some, List, map, leb,
  ◌==◌, nat_eq, if◌then◌else◌, all, length,
}
use thinking_feature_flag_se.Common.Texts.{codes}
use thinking_feature_flag_se.Values.{Environment, FlagType, FlagValue, value_matches_type}
use thinking_feature_flag_se.Evaluation.{Rule, Context}

-- `Operator`, the literal type
pub data Operator : Type 0 where
  in_list not_in eq neq contains starts_with ends_with : Operator

abbrev pub operator_text : Operator → String
operator_text in_list = "in"
operator_text not_in = "not_in"
operator_text eq = "eq"
operator_text neq = "neq"
operator_text contains = "contains"
operator_text starts_with = "starts_with"
operator_text ends_with = "ends_with"

pub record TargetingRule : Type 0 where
  pub attribute : String
  pub operator : Operator
  pub values : List FlagValue
  pub value : FlagValue

-- `r.model_dump()`: a dict with all four keys
abbrev pub model_dump : TargetingRule → Rule
model_dump r = record {
  attribute = some r.attribute;
  operator = some (operator_text r.operator);
  values = some r.values;
  value = some r.value;
}

pub record TenantCreate : Type 0 where
  pub name : String

pub record FlagCreate : Type 0 where
  pub key : String
  pub name : String
  pub description : Option String
  pub type : FlagType
  pub default_value : FlagValue

-- A field of a body: absent from `model_fields_set`, or sent, and then perhaps as null.
pub data Field (A : Type 0) : Type 0 where
  unset : Field A
  sent : Option A → Field A

-- `"field" in payload.model_fields_set`
abbrev pub is_set : {A : Type 0} → Field A → Bool
is_set unset = false
is_set (sent value) = true

-- `payload.field`; the default of every field is `None`.
abbrev pub value_of : {A : Type 0} → Field A → Option A
value_of unset = none
value_of (sent value) = value

pub record FlagUpdate : Type 0 where
  pub name : Field String
  pub description : Field String
  pub default_value : Field FlagValue
  pub environment : Field Environment
  pub enabled : Field Bool
  pub value : Field FlagValue
  pub rollout_percentage : Field ℕ
  pub targeting_rules : Field (List TargetingRule)

pub record EvaluateRequest : Type 0 where
  pub tenant_id : ℕ
  pub environment : Environment
  pub user_id : String
  pub context : Context
  pub flag_keys : Option (List String)

pub record BulkEvaluateRequest : Type 0 where
  pub tenant_id : ℕ
  pub environment : Environment
  pub user_id : String
  pub context : Context

-- `Field(min_length=1, max_length=255)`, in characters
unfoldable pub has_length : String → Bool
has_length s = leb 1 (length (codes s)) && leb (length (codes s)) 255

-- `[a-zA-Z0-9._-]`
abbrev pub is_key_char : ℕ → Bool
is_key_char c =
    (leb b'a' c && leb c b'z')
    || (leb b'A' c && leb c b'Z')
    || (leb b'0' c && leb c b'9')
    || c == b'.'
    || c == b'_'
    || c == b'-'

-- `Field(min_length=1, max_length=255, pattern=r"^[a-zA-Z0-9._-]+$")`
unfoldable pub is_key : String → Bool
unfolding has_length
is_key s = has_length s && all is_key_char (codes s)

-- The constraints of `TenantCreate`
unfoldable pub check_tenant_create : TenantCreate → Bool
unfolding has_length
check_tenant_create payload = has_length payload.name

-- The constraints of `FlagCreate`, and `check_default_matches_type`
unfoldable pub check_flag_create : FlagCreate → Bool
unfolding is_key has_length value_matches_type
check_flag_create payload =
    is_key payload.key
    && has_length payload.name
    && value_matches_type (some payload.default_value) payload.type

-- A constraint on an optional field holds of null.
abbrev optional : {A : Type 0} → (A → Bool) → Option A → Bool
optional check none = true
optional check (some value) = check value

-- `check_environment_present`
check_environment_present : FlagUpdate → Bool
check_environment_present payload =
    let touches_env =
      is_set payload.enabled
      || is_set payload.value
      || is_set payload.rollout_percentage
      || is_set payload.targeting_rules in
    elim (value_of payload.environment) [ none ↦ not touches_env | some _ ↦ true ]

-- The constraints of `FlagUpdate`. A percentage below 0 has been refused with the types.
unfoldable pub check_flag_update : FlagUpdate → Bool
unfolding has_length check_environment_present
check_flag_update payload =
    optional has_length (value_of payload.name)
    && optional (λ p. leb p 100) (value_of payload.rollout_percentage)
    && check_environment_present payload

unfoldable pub check_evaluate_request : EvaluateRequest → Bool
unfolding has_length
check_evaluate_request payload = has_length payload.user_id

unfoldable pub check_bulk_evaluate_request : BulkEvaluateRequest → Bool
unfolding has_length
check_bulk_evaluate_request payload = has_length payload.user_id
