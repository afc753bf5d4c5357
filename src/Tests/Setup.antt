-- ===== src/Tests/Setup.antt =====
-- A small service: two tenants with a key each, and a flag of the first one.
use thinking_feature_flag_se.Common.{
  ◌*◌, ◌/◌, ◌%◌, inl, refl, String, true, false, none, some, [], ◌∷◌, map, arith, here, there,
}
use thinking_feature_flag_se.Common.Texts.{codes}
use thinking_feature_flag_se.Values.{
  development, staging, production, boolean, string, bool, str, Environment, environments,
  value_matches_type,
}
use thinking_feature_flag_se.Evaluation.{Platform, Rule, FlagSnapshot}
use thinking_feature_flag_se.Models.{Uuid, ApiKey, Flag, FlagEnvironmentConfig, Database}
use thinking_feature_flag_se.Models.Integrity.{IsSound, OnePerPlace, IsOwned}
use thinking_feature_flag_se.Schemas.{FlagCreate, FlagUpdate, unset, sent}
use thinking_feature_flag_se.Security.{hash_api_key}
use thinking_feature_flag_se.Services.{production_env, Settings, Services, ServiceLaws}
use thinking_feature_flag_se.Metrics.{no_metrics}
use thinking_feature_flag_se.Api.Coherence.{IsCoherent}
use thinking_feature_flag_se.World.{World}
use thinking_feature_flag_se.Tests.Redis.{
  no_data, redis, redis_laws, unary, unary-Lacks, unary-injective,
}

abbrev pub platform : Platform
platform = record { sha256 = λ s. map (λ c. c % 256) (codes s); float_str = λ m k. "1.5" }

abbrev pub settings : Settings
settings = record {
  app_env = production_env;
  log_level = "INFO";
  port = 8080;
  gcp_project_id = "acme";
  database_url = "postgresql+asyncpg://app@db/flags";
  db_pool_size = 5;
  db_max_overflow = 10;
  db_echo = false;
  redis_url = "redis://cache/0";
  admin_api_key = "root";
  cache_ttl_seconds = 30;
  cache_enabled = true;
  rate_limit_enabled = true;
  rate_limit_per_minute = 100;
}

abbrev pub services : Services
services = record {
  settings = settings;
  platform = platform;
  redis = redis;
  dumps = λ items. some items;
  loads = λ text. text;
  uuid_text = unary;
  column_size = λ rules. 100;
  collates = λ a b. true;
  rank = λ percent n. n * percent / 100;
  round3 = λ x. x / 10 * 10;
}

unfoldable pub laws : ServiceLaws services
laws = record {
  redis_laws = redis_laws;
  loads_dumps = λ items. refl;
  uuid_text-Lacks = unary-Lacks;
  uuid_text-injective = unary-injective;
}

abbrev pub key_of : Uuid → Uuid → String → ApiKey
key_of id tenant_id raw = record {
  id = id;
  tenant_id = tenant_id;
  key_hash = hash_api_key platform raw;
  name = "default";
  created_at = 5;
}

abbrev pub alice : ApiKey
alice = key_of 11 1 "ffs_a"

abbrev pub bob : ApiKey
bob = key_of 12 2 "ffs_b"

abbrev pub dark_mode : Flag
dark_mode = record {
  id = 21;
  tenant_id = 1;
  key = "dark-mode";
  name = "Dark mode";
  description = none;
  type = boolean;
  default_value = bool false;
  archived_at = none;
  created_at = 6;
  updated_at = 6;
}

abbrev pub bolt_flag : Flag
bolt_flag = record {
  id = 22;
  tenant_id = 2;
  key = "dark-mode";
  name = "Bolt's own";
  description = some "in use";
  type = string;
  default_value = str "off";
  archived_at = none;
  created_at = 7;
  updated_at = 7;
}

abbrev pub bolt_config : FlagEnvironmentConfig
bolt_config = record {
  flag_id = 22;
  environment = production;
  tenant_id = 2;
  enabled = false;
  value = str "on";
  rollout_percentage = 0;
  targeting_rules = [];
  created_at = 7;
  updated_at = 7;
}

abbrev pub beta_rule : Rule
beta_rule = record {
  attribute = some "plan";
  operator = some "starts_with";
  values = some (str "pro" ∷ []);
  value = some (bool true);
}

abbrev pub config_in : Environment → FlagEnvironmentConfig
config_in environment = record {
  flag_id = 21;
  environment = environment;
  tenant_id = 1;
  enabled = true;
  value = bool true;
  rollout_percentage = 30;
  targeting_rules = beta_rule ∷ [];
  created_at = 6;
  updated_at = 6;
}

abbrev pub db : Database
db = record {
  tenants =
      record { id = 1; name = "Acme"; created_at = 5; updated_at = 5 }
      ∷ record { id = 2; name = "Bolt"; created_at = 5; updated_at = 5 }
      ∷ [];
  api_keys = alice ∷ bob ∷ [];
  flags = dark_mode ∷ bolt_flag ∷ [];
  configs = bolt_config ∷ map config_in environments;
  audit_log = [];
  last_audit_id = 0;
}

config-IsOwned : (environment : Environment) → IsOwned db.flags (config_in environment)
unfolding value_matches_type
config-IsOwned environment = record {
  owner = dark_mode;
  place = here;
  same_id = refl;
  same_tenant = refl;
  value_typed = refl;
  in_range = omega arith;
}

one_per_environment : OnePerPlace db.configs
one_per_environment = (
  (
    λ same. ground (arith, same.0),
    (λ same. ground (arith, same.0), (λ same. ground (arith, same.0), tt)),
  ),
  ((λ same. cc (same.1), (λ same. cc (same.1), tt)), ((λ same. cc (same.1), tt), (tt, tt))),
)

pub db-IsSound : IsSound db
unfolding value_matches_type
db-IsSound = record {
  distinct_ids = ((λ e. ground arith, tt), (tt, tt));
  distinct_keys = ((λ same. ground (arith, same.0), tt), (tt, tt));
  typed = (refl, (refl, tt));
  owned = (
    record {
      owner = bolt_flag;
      place = there here;
      same_id = refl;
      same_tenant = refl;
      value_typed = refl;
      in_range = omega arith;
    },
    (config-IsOwned development, (config-IsOwned staging, (config-IsOwned production, tt))),
  );
  one_per_place = one_per_environment;
}

abbrev pub world : World redis
world = record {
  database = db;
  server = no_data;
  stats = record { hits = 0; misses = 0 };
  metrics = no_metrics;
}

abbrev pub snapshot : FlagSnapshot
snapshot = record {
  key = "dark-mode";
  type = "boolean";
  default_value = bool false;
  enabled = true;
  value = bool true;
  rollout_percentage = 30;
  targeting_rules = beta_rule ∷ [];
  is_archived = false;
}

abbrev pub new_payload : FlagCreate
new_payload = record {
  key = "new";
  name = "New";
  description = none;
  type = boolean;
  default_value = bool false;
}

abbrev pub kill : FlagUpdate
kill = record {
  name = unset;
  description = unset;
  default_value = unset;
  environment = sent (some production);
  enabled = sent (some false);
  value = unset;
  rollout_percentage = unset;
  targeting_rules = unset;
}

-- An empty server holds nothing.
pub cold : IsCoherent services laws db no_data
unfolding laws redis_laws
cold = record { current = λ t e. inl refl }
