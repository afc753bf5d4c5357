-- ===== src/Routers/Flags/Create.antt =====
-- `create_flag` and `_seed_value` (app/routers/flags.py). The new row's id is given; the tables'
-- constraints are those of app/models.py.
pub mod Sound
use thinking_feature_flag_se.Common.{
  ℕ, ◌<>◌, String, Bool, true, false, not, ◌&&◌, ◌||◌, Option, none, some, List, [], ◌∷◌, ◌++◌, map,
  ◌==◌, nat_eq, string_eq, if◌then◌else◌, any,
}
use thinking_feature_flag_se.Values.{
  Environment, environments, FlagType, boolean, flag_type_value, FlagValue, bool,
}
use thinking_feature_flag_se.Models.{
  Uuid, Instant, Tenant, ApiKey, Flag, FlagEnvironmentConfig, Database, definition, flag_created,
  add_audit, is_flag,
}
use thinking_feature_flag_se.Schemas.{FlagCreate, check_flag_create}
use thinking_feature_flag_se.Outcome.{Outcome, ok, raised, http_exception, invalid_request}
use thinking_feature_flag_se.Services.{Services}
use thinking_feature_flag_se.Cache.{invalidate}
use thinking_feature_flag_se.Security.{require_tenant}
use thinking_feature_flag_se.World.{World, Handler}
use thinking_feature_flag_se.Routers.Flags.Responses.{FlagResponse, response_of}

-- `not default_value` of a boolean; validation has seen to the type.
unfoldable pub seed_value : FlagType → FlagValue → FlagValue
seed_value boolean (bool b) = bool (not b)
seed_value type default_value = default_value

-- The INSERT fails: `uq_flags_tenant_key`, the primary key, or the foreign key to the tenants.
unfoldable pub flag_conflicts : Flag → Database → Bool
flag_conflicts flag db =
    any (is_flag flag.tenant_id flag.key) db.flags
    || any (λ (f : Flag). f.id == flag.id) db.flags
    || not (any (λ (t : Tenant). t.id == flag.tenant_id) db.tenants)

abbrev pub new_flag : FlagCreate → Uuid → Uuid → Instant → Flag
new_flag payload tenant_id id now = record {
  id = id;
  tenant_id = tenant_id;
  key = payload.key;
  name = payload.name;
  description = payload.description;
  type = payload.type;
  default_value = payload.default_value;
  archived_at = none;
  created_at = now;
  updated_at = now;
}

abbrev pub seeded_config : Flag → FlagValue → Instant → Environment → FlagEnvironmentConfig
seeded_config flag seeded now environment = record {
  flag_id = flag.id;
  environment = environment;
  tenant_id = flag.tenant_id;
  enabled = false;
  value = seeded;
  rollout_percentage = 100;
  targeting_rules = [];
  created_at = now;
  updated_at = now;
}

-- The database after the commit.
unfoldable pub with_new_flag : Flag → ApiKey → Instant → Database → Database
unfolding seed_value add_audit
with_new_flag flag api_key now db =
    let seeded = seed_value flag.type flag.default_value in
    add_audit flag.tenant_id flag.id none flag_created none
      (some (definition flag.key flag.name (flag_type_value flag.type) flag.default_value))
      api_key.id now
      (record db {
        flags = db.flags ++ flag ∷ [];
        configs = db.configs ++ map (seeded_config flag seeded now) environments;
      })

module _ (services : Services) where
  unfoldable pub create_flag :
      FlagCreate → ApiKey → Uuid → Instant → Handler services.redis FlagResponse
  unfolding flag_conflicts with_new_flag response_of
  create_flag payload api_key id now w =
      let flag = new_flag payload api_key.tenant_id id now in
      let db = with_new_flag flag api_key now w.database in
      if flag_conflicts flag w.database
      then (raised (http_exception 409 ("Flag '" <> payload.key <> "' already exists")), w)
      else (
        ok (response_of db flag),
        record w { database = db; server = invalidate services api_key.tenant_id none w.server },
      )
