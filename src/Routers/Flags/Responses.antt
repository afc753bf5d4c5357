-- ===== src/Routers/Flags/Responses.antt =====
-- `FlagResponse` of app/schemas.py, and the queries that the flag handlers share
-- (app/routers/flags.py).
use thinking_feature_flag_se.Common.{
  ℕ, ◌<>◌, String, Bool, Option, none, some, List, map, ◌==◌, nat_eq, select,
}
use thinking_feature_flag_se.Values.{Environment, FlagType, FlagValue}
use thinking_feature_flag_se.Evaluation.{Rule}
use thinking_feature_flag_se.Models.{
  Uuid, Instant, Flag, FlagEnvironmentConfig, Database, find_flag,
}
use thinking_feature_flag_se.Outcome.{Outcome, ok, raised, http_exception}

pub record FlagConfigResponse : Type 0 where
  pub environment : Environment
  pub enabled : Bool
  pub value : FlagValue
  pub rollout_percentage : ℕ
  pub targeting_rules : List Rule
  pub updated_at : Instant

-- What a client sees of a flag: not its tenant.
pub record FlagResponse : Type 0 where
  pub id : Uuid
  pub key : String
  pub name : String
  pub description : Option String
  pub type : FlagType
  pub default_value : FlagValue
  pub archived_at : Option Instant
  pub created_at : Instant
  pub updated_at : Instant
  pub configs : List FlagConfigResponse

abbrev pub config_response : FlagEnvironmentConfig → FlagConfigResponse
config_response c = record {
  environment = c.environment;
  enabled = c.enabled;
  value = c.value;
  rollout_percentage = c.rollout_percentage;
  targeting_rules = c.targeting_rules;
  updated_at = c.updated_at;
}

-- The rows of the `configs` relationship.
abbrev pub belongs_to : Flag → FlagEnvironmentConfig → Bool
belongs_to flag c = c.flag_id == flag.id

-- `FlagResponse.model_validate(flag)`
unfoldable pub response_of : Database → Flag → FlagResponse
response_of db flag = record {
  id = flag.id;
  key = flag.key;
  name = flag.name;
  description = flag.description;
  type = flag.type;
  default_value = flag.default_value;
  archived_at = flag.archived_at;
  created_at = flag.created_at;
  updated_at = flag.updated_at;
  configs = map config_response (select (belongs_to flag) db.configs);
}

found_or_404 : String → Option Flag → Outcome Flag
found_or_404 flag_key none = raised (http_exception 404 ("Flag '" <> flag_key <> "' not found"))
found_or_404 flag_key (some flag) = ok flag

unfoldable pub get_flag_or_404 : Database → Uuid → String → Outcome Flag
unfolding found_or_404 find_flag
get_flag_or_404 db tenant_id flag_key = found_or_404 flag_key (find_flag tenant_id flag_key db)
