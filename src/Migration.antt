-- ===== src/Migration.antt =====
-- The one migration of the service,
-- thinking-feature-flag-service/migrations/versions/0001_initial_schema.py.
pub mod Metadata
pub mod Rows
use thinking_feature_flag_se.Common.{String, true, none, some, List, [], ◌∷◌, map, ◌++◌}
use thinking_feature_flag_se.Ddl.{
  SqlType, sql_uuid, sql_text, sql_timestamptz, sql_boolean, sql_integer, sql_bigint, sql_jsonb,
  sql_varchar, sql_enum, OnDelete, cascade, restrict, set_null, Column, required, unique_constraint,
  check_constraint, on_update, on_delete, Statement, create_extension, create_enum, create_table,
  create_index, create_raising_function, create_trigger, drop_trigger, drop_function, drop_table,
  drop_type,
}

-- `sa.Column("id", …, primary_key=True, server_default=sa.text("gen_random_uuid()"))`
abbrev uuid_key : Column
uuid_key = record (required "id" sql_uuid) {
  primary_key = true;
  server_default = some "gen_random_uuid()";
}

-- A time that the database sets.
abbrev timestamp : String → Column
timestamp name = record (required name sql_timestamptz) { server_default = some "now()" }

abbrev references_id : String → String → OnDelete → Column
references_id name table ondelete = record (required name sql_uuid) {
  foreign_key = some (record { table = table; column = "id"; ondelete = ondelete });
}

abbrev nullable_column : String → SqlType → Column
nullable_column name type = record (required name type) { nullable = true }

abbrev with_default : String → Column → Column
with_default text column = record column { server_default = some text }

abbrev keyed : Column → Column
keyed column = record column { primary_key = true }

-- The three enums, and the values of each.
abbrev create_enums : List Statement
create_enums =
    create_enum "environment" ("development" ∷ "staging" ∷ "production" ∷ [])
    ∷ create_enum "flag_type" ("boolean" ∷ "string" ∷ "number" ∷ [])
    ∷ create_enum "audit_action"
        ("flag.created" ∷ "flag.updated" ∷ "flag.archived" ∷ "config.updated" ∷ [])
    ∷ []

abbrev create_tenants : List Statement
create_tenants =
    create_table "tenants"
      (uuid_key
        ∷ required "name" (sql_varchar 255)
        ∷ timestamp "created_at"
        ∷ timestamp "updated_at"
        ∷ [])
      []
    ∷ []

abbrev create_api_keys : List Statement
create_api_keys =
    create_table "api_keys"
      (uuid_key
        ∷ references_id "tenant_id" "tenants" cascade
        ∷ record (required "key_hash" (sql_varchar 64)) { unique = true }
        ∷ required "name" (sql_varchar 255)
        ∷ timestamp "created_at"
        ∷ [])
      []
    ∷ create_index "ix_api_keys_tenant_id" "api_keys" ("tenant_id" ∷ [])
    ∷ []

abbrev create_flags : List Statement
create_flags =
    create_table "flags"
      (uuid_key
        ∷ references_id "tenant_id" "tenants" cascade
        ∷ required "key" (sql_varchar 255)
        ∷ required "name" (sql_varchar 255)
        ∷ nullable_column "description" sql_text
        ∷ required "type" (sql_enum "flag_type")
        ∷ required "default_value" sql_jsonb
        ∷ nullable_column "archived_at" sql_timestamptz
        ∷ timestamp "created_at"
        ∷ timestamp "updated_at"
        ∷ [])
      (unique_constraint ("tenant_id" ∷ "key" ∷ []) "uq_flags_tenant_key" ∷ [])
    ∷ create_index "ix_flags_tenant_archived" "flags" ("tenant_id" ∷ "archived_at" ∷ [])
    ∷ []

abbrev create_configs : List Statement
create_configs =
    create_table "flag_environment_configs"
      (keyed (references_id "flag_id" "flags" cascade)
        ∷ keyed (required "environment" (sql_enum "environment"))
        ∷ references_id "tenant_id" "tenants" cascade
        ∷ with_default "false" (required "enabled" sql_boolean)
        ∷ required "value" sql_jsonb
        ∷ with_default "100" (required "rollout_percentage" sql_integer)
        ∷ with_default "[]" (required "targeting_rules" sql_jsonb)
        ∷ timestamp "created_at"
        ∷ timestamp "updated_at"
        ∷ [])
      (check_constraint "rollout_percentage >= 0 AND rollout_percentage <= 100"
          "ck_config_rollout_range"
        ∷ check_constraint "jsonb_typeof(targeting_rules) = 'array'" "ck_config_rules_is_array"
        ∷ check_constraint "jsonb_array_length(targeting_rules) <= 50" "ck_config_rules_max"
        ∷ check_constraint "pg_column_size(targeting_rules) < 8192" "ck_config_rules_size"
        ∷ [])
    ∷ create_index "ix_configs_tenant_env" "flag_environment_configs"
        ("tenant_id" ∷ "environment" ∷ [])
    ∷ []

abbrev create_audit_log : List Statement
create_audit_log =
    create_table "flag_audit_log"
      (keyed (required "id" sql_bigint)
        ∷ references_id "tenant_id" "tenants" restrict
        ∷ references_id "flag_id" "flags" restrict
        ∷ nullable_column "environment" (sql_enum "environment")
        ∷ required "action" (sql_enum "audit_action")
        ∷ nullable_column "old_value" sql_jsonb
        ∷ nullable_column "new_value" sql_jsonb
        ∷ record (references_id "actor_key_id" "api_keys" set_null) { nullable = true }
        ∷ timestamp "created_at"
        ∷ [])
      []
    ∷ create_index "ix_audit_tenant_flag_created" "flag_audit_log"
        ("tenant_id" ∷ "flag_id" ∷ "created_at" ∷ [])
    ∷ []

abbrev create_immutability : List Statement
create_immutability =
    create_raising_function "reject_audit_mutation"
    ∷ create_trigger (record {
      name = "trg_flag_audit_log_immutable";
      table = "flag_audit_log";
      before = on_update ∷ on_delete ∷ [];
      function = "reject_audit_mutation";
    })
    ∷ []

unfoldable pub upgrade : List Statement
upgrade =
    create_extension "pgcrypto" ∷ create_enums
    ++ create_tenants
    ++ create_api_keys
    ++ create_flags
    ++ create_configs
    ++ create_audit_log
    ++ create_immutability

unfoldable pub downgrade : List Statement
downgrade =
    drop_trigger "trg_flag_audit_log_immutable" "flag_audit_log"
    ∷ drop_function "reject_audit_mutation"
    ∷ drop_table "flag_audit_log"
    ∷ drop_table "flag_environment_configs"
    ∷ drop_table "flags"
    ∷ drop_table "api_keys"
    ∷ drop_table "tenants"
    ∷ map drop_type ("audit_action" ∷ "flag_type" ∷ "environment" ∷ [])
