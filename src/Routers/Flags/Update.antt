-- ===== src/Routers/Flags/Update.antt =====
-- `update_flag` (app/routers/flags.py). Nothing is committed before the end, so that what raises
-- leaves the world as it was.
pub mod Repeated
pub mod Steps
pub mod Sound
pub mod Switch
pub mod Switched
use thinking_feature_flag_se.Common.{
  ℕ, ◌<>◌, String, Bool, true, false, not, ◌&&◌, Option, none, some, List, [], ◌∷◌, ◌++◌, map, leb,
  ltb, ◌==◌, nat_eq, string_eq, if◌then◌else◌, length,
}
use thinking_feature_flag_se.Values.{Environment, environment_value}
use thinking_feature_flag_se.Models.{
  Uuid, Instant, ApiKey, Flag, FlagEnvironmentConfig, Database, FlagChange, ConfigChange,
  flag_fields, config_fields, flag_updated, config_updated, add_audit, find_config, update_flag_row,
  update_config_row,
}
use thinking_feature_flag_se.Schemas.{FlagUpdate, value_of, check_flag_update}
use thinking_feature_flag_se.Outcome.{
  Outcome, ok, raised, http_exception, invalid_request, unhandled, ◌>>=◌, ◌>>◌, raise_unless,
}
use thinking_feature_flag_se.Services.{Services}
use thinking_feature_flag_se.Cache.{invalidate}
use thinking_feature_flag_se.Security.{require_tenant}
use thinking_feature_flag_se.World.{World, Handler}
use thinking_feature_flag_se.Routers.Flags.Changes.{
  drop_unchanged, flag_differs, config_differs, stored_flag, stored_config, assign_flag_all,
  assign_config_all, requested_flag_changes, requested_config_changes,
}
use thinking_feature_flag_se.Routers.Flags.Responses.{FlagResponse, response_of, get_flag_or_404}

-- The row after the flush, whose `updated_at` is set by `onupdate`.
abbrev pub changed_flag : Flag → List FlagChange → Instant → Flag
changed_flag flag changes now = record (assign_flag_all flag changes) { updated_at = now }

abbrev pub changed_config :
    FlagEnvironmentConfig → List ConfigChange → Instant → FlagEnvironmentConfig
changed_config config changes now = record (assign_config_all config changes) { updated_at = now }

-- The row and the audit record that a change of the flag writes.
unfoldable pub with_flag_fields : ApiKey → Instant → Flag → List FlagChange → Database → Database
unfolding add_audit assign_flag_all stored_flag update_flag_row
with_flag_fields api_key now flag fields db =
    add_audit api_key.tenant_id flag.id none flag_updated
      (some (flag_fields (map (stored_flag flag) fields))) (some (flag_fields fields)) api_key.id
      now (record db { flags = update_flag_row (changed_flag flag fields now) db.flags })

-- `if flag_changes:`
unfoldable pub write_flag : ApiKey → Instant → Flag → List FlagChange → Database → Database × Flag
unfolding with_flag_fields
write_flag api_key now flag [] db = (db, flag)
write_flag api_key now flag (change ∷ changes) db = (
  with_flag_fields api_key now flag (change ∷ changes) db,
  changed_flag flag (change ∷ changes) now,
)

-- The row and the audit record that a change of a config writes.
unfoldable pub with_config_fields :
    ApiKey
    → Instant
    → Flag
    → Environment
    → FlagEnvironmentConfig
    → List ConfigChange
    → Database
    → Database
unfolding add_audit assign_config_all stored_config update_config_row
with_config_fields api_key now flag environment config fields db =
    add_audit api_key.tenant_id flag.id (some environment) config_updated
      (some (config_fields (map (stored_config config) fields))) (some (config_fields fields))
      api_key.id now
      (record db { configs = update_config_row (changed_config config fields now) db.configs })

-- `None if flag_changes else payload.environment`
abbrev pub invalidation_scope : List FlagChange → Option Environment → Option Environment
invalidation_scope [] environment = environment
invalidation_scope (change ∷ changes) environment = none

module _ (services : Services) where
  -- The CHECK constraints of the table, without those that the types give.
  unfoldable pub config_fits : FlagEnvironmentConfig → Bool
  config_fits c =
      leb c.rollout_percentage 100
      && leb (length c.targeting_rules) 50
      && ltb (services.column_size c.targeting_rules) 8192

  -- `if config_changes:`, with the flush of the row. A violated constraint is an `IntegrityError`,
  -- which nothing catches.
  unfoldable pub write_config :
      ApiKey
      → Instant
      → Flag
      → Environment
      → FlagEnvironmentConfig
      → List ConfigChange
      → Database
      → Outcome Database
  unfolding config_fits with_config_fields
  write_config api_key now flag environment config [] db = ok db
  write_config api_key now flag environment config (change ∷ changes) db =
      if config_fits (changed_config config (change ∷ changes) now)
      then ok (with_config_fields api_key now flag environment config (change ∷ changes) db)
      else raised unhandled

  no_config_detail : String → Environment → String
  no_config_detail flag_key environment =
      "No config for '" <> flag_key <> "' in " <> environment_value environment

  -- The second half of the handler, once the config is found.
  unfoldable pub update_found_config :
      FlagUpdate
      → ApiKey
      → Instant
      → Flag
      → Environment
      → Option FlagEnvironmentConfig
      → Database
      → Outcome Database
  unfolding no_config_detail write_config drop_unchanged config_differs requested_config_changes
  update_found_config payload api_key now flag environment none db =
      raised (http_exception 404 (no_config_detail flag.key environment))
  update_found_config payload api_key now flag environment (some config) db = do
    changes ← requested_config_changes payload flag.type
    write_config api_key now flag environment config (drop_unchanged config_differs config changes)
        db

  -- `if payload.environment is not None:`
  unfoldable pub update_config :
      FlagUpdate → ApiKey → Instant → Flag → Option Environment → Database → Outcome Database
  unfolding update_found_config find_config
  update_config payload api_key now flag none db = ok db
  update_config payload api_key now flag (some environment) db =
      update_found_config payload api_key now flag environment (find_config flag.id environment db)
        db

  -- What the session holds at the commit: the database, the flag, and whether `flag_changes` has
  -- entries.
  unfoldable pub update_session :
      FlagUpdate
      → ApiKey
      → String
      → Instant
      → Database
      → Outcome (Database × Flag × List FlagChange)
  unfolding write_flag update_config get_flag_or_404 drop_unchanged flag_differs
      requested_flag_changes
  update_session payload api_key flag_key now db = do
    flag ← get_flag_or_404 db api_key.tenant_id flag_key
    changes ← requested_flag_changes payload flag.type
    let flag_changes = drop_unchanged flag_differs flag changes
    let written = write_flag api_key now flag flag_changes db
    db' ← update_config payload api_key now written.1 (value_of payload.environment) written.0
    ok (db', written.1, flag_changes)

  -- The commit, and what follows it.
  unfoldable pub finish_update :
      FlagUpdate
      → ApiKey
      → Outcome (Database × Flag × List FlagChange)
      → Handler services.redis FlagResponse
  unfolding response_of
  finish_update payload api_key (raised e) w = (raised e, w)
  finish_update payload api_key (ok (db, flag, flag_changes)) w = (
    ok (response_of db flag),
    record w {
      database = db;
      server =
          invalidate services api_key.tenant_id
            (invalidation_scope flag_changes (value_of payload.environment)) w.server;
    },
  )

  unfoldable pub update_flag :
      FlagUpdate → ApiKey → String → Instant → Handler services.redis FlagResponse
  unfolding finish_update update_session
  update_flag payload api_key flag_key now w =
      finish_update payload api_key (update_session payload api_key flag_key now w.database) w
