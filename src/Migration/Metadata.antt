-- ===== src/Migration/Metadata.antt =====
-- `Base.metadata`: the tables as the classes of thinking-feature-flag-service/app/models.py declare
-- them, against those that the migration creates.
use thinking_feature_flag_se.Common.{
  String, Bool, true, false, none, some, List, [], ◌∷◌, ◌++◌, map, select, ◌≡◌, refl,
}
use thinking_feature_flag_se.Values.{
  environments, environment_value, boolean, string, number, flag_type_value,
}
use thinking_feature_flag_se.Models.{
  AuditAction, flag_created, flag_updated, flag_archived, config_updated,
}
use thinking_feature_flag_se.Ddl.{
  sql_uuid, sql_text, sql_timestamptz, sql_boolean, sql_integer, sql_bigint, sql_jsonb, sql_varchar,
  sql_enum, OnDelete, cascade, restrict, set_null, Column, required, unique_constraint,
  check_constraint, Statement, create_enum, create_table, create_index,
}
use thinking_feature_flag_se.Migration.{upgrade}

-- `action.value`
abbrev audit_action_value : AuditAction → String
audit_action_value flag_created = "flag.created"
audit_action_value flag_updated = "flag.updated"
audit_action_value flag_archived = "flag.archived"
audit_action_value config_updated = "config.updated"

-- The enums, of the values of the Python classes.
abbrev enums : List Statement
enums =
    create_enum "environment" (map environment_value environments)
    ∷ create_enum "flag_type" (map flag_type_value (boolean ∷ string ∷ number ∷ []))
    ∷ create_enum "audit_action"
        (map audit_action_value (flag_created ∷ flag_updated ∷ flag_archived ∷ config_updated ∷ []))
    ∷ []

-- The key is made in Python, by `uuid.uuid4`.
abbrev uuid_pk : Column
uuid_pk = record (required "id" sql_uuid) { primary_key = true }

abbrev pointer : String → String → OnDelete → Column
pointer name table ondelete = record (required name sql_uuid) {
  foreign_key = some (record { table = table; column = "id"; ondelete = ondelete });
}

abbrev set_by_server : String → Column
set_by_server name = record (required name sql_timestamptz) { server_default = some "now()" }

abbrev may_be_null : Column → Column
may_be_null column = record column { nullable = true }

abbrev in_key : Column → Column
in_key column = record column { primary_key = true }

abbrev tenant_table : List Statement
tenant_table =
    create_table "tenants"
      (uuid_pk
        ∷ required "name" (sql_varchar 255)
        ∷ set_by_server "created_at"
        ∷ set_by_server "updated_at"
        ∷ [])
      []
    ∷ []

abbrev api_key_table : List Statement
api_key_table =
    create_table "api_keys"
      (uuid_pk
        ∷ pointer "tenant_id" "tenants" cascade
        ∷ record (required "key_hash" (sql_varchar 64)) { unique = true }
        ∷ required "name" (sql_varchar 255)
        ∷ set_by_server "created_at"
        ∷ [])
      []
    ∷ create_index "ix_api_keys_tenant_id" "api_keys" ("tenant_id" ∷ [])
    ∷ []

abbrev flag_table : List Statement
flag_table =
    create_table "flags"
      (uuid_pk
        ∷ pointer "tenant_id" "tenants" cascade
        ∷ required "key" (sql_varchar 255)
        ∷ required "name" (sql_varchar 255)
        ∷ may_be_null (required "description" sql_text)
        ∷ required "type" (sql_enum "flag_type")
        ∷ required "default_value" sql_jsonb
        ∷ may_be_null (required "archived_at" sql_timestamptz)
        ∷ set_by_server "created_at"
        ∷ set_by_server "updated_at"
        ∷ [])
      (unique_constraint ("tenant_id" ∷ "key" ∷ []) "uq_flags_tenant_key" ∷ [])
    ∷ create_index "ix_flags_tenant_archived" "flags" ("tenant_id" ∷ "archived_at" ∷ [])
    ∷ []

abbrev config_table : List Statement
config_table =
    create_table "flag_environment_configs"
      (in_key (pointer "flag_id" "flags" cascade)
        ∷ in_key (required "environment" (sql_enum "environment"))
        ∷ pointer "tenant_id" "tenants" cascade
        ∷ required "enabled" sql_boolean
        ∷ required "value" sql_jsonb
        ∷ required "rollout_percentage" sql_integer
        ∷ record (required "targeting_rules" sql_jsonb) { server_default = some "[]" }
        ∷ set_by_server "created_at"
        ∷ set_by_server "updated_at"
        ∷ [])
      (check_constraint "rollout_percentage >= 0 AND rollout_percentage <= 100"
          "ck_config_rollout_range"
        ∷ check_constraint "jsonb_typeof(targeting_rules) = 'array'" "ck_config_rules_is_array"
        ∷ check_constraint "jsonb_array_length(targeting_rules) <= 50" "ck_config_rules_max"
        ∷ check_constraint "pg_column_size(targeting_rules) < 8192" "ck_config_rules_size"
        ∷ [])
    ∷ create_index "ix_configs_tenant_env" "flag_environment_configs"
        ("tenant_id" ∷ "environment" ∷ [])
    ∷ []

abbrev audit_table : List Statement
audit_table =
    create_table "flag_audit_log"
      (in_key (required "id" sql_bigint)
        ∷ pointer "tenant_id" "tenants" restrict
        ∷ pointer "flag_id" "flags" restrict
        ∷ may_be_null (required "environment" (sql_enum "environment"))
        ∷ required "action" (sql_enum "audit_action")
        ∷ may_be_null (required "old_value" sql_jsonb)
        ∷ may_be_null (required "new_value" sql_jsonb)
        ∷ may_be_null (pointer "actor_key_id" "api_keys" set_null)
        ∷ set_by_server "created_at"
        ∷ [])
      []
    ∷ create_index "ix_audit_tenant_flag_created" "flag_audit_log"
        ("tenant_id" ∷ "flag_id" ∷ "created_at" ∷ [])
    ∷ []

unfoldable metadata : List Statement
metadata = enums ++ tenant_table ++ api_key_table ++ flag_table ++ config_table ++ audit_table

-- What a model can declare: no extension, no function and no trigger.
in_metadata : Statement → Bool
in_metadata (create_enum name values) = true
in_metadata (create_table name columns constraints) = true
in_metadata (create_index name table columns) = true
in_metadata _ = false

-- A statement without the defaults that the server fills in.
bare_column : Column → Column
bare_column column = record column { server_default = none }

bare : Statement → Statement
unfolding bare_column
bare (create_table name columns constraints) =
    create_table name (map bare_column columns) constraints
bare statement = statement

-- The enums, tables and indexes of the models are those that the migration creates, column by column
-- and constraint by constraint, but for the server defaults of columns, and every value of a Python
-- enum is a label of the Postgres enum.
upgrade-metadata : map bare (select in_metadata upgrade) ≡ map bare metadata
unfolding upgrade metadata bare in_metadata
upgrade-metadata = refl
