-- ===== src/Models.antt =====
-- The tables of thinking-feature-flag-service/app/models.py. A table is the list of its rows, in
-- the order of their insertion; a query is the filter that its `where` states. A uuid is the number
-- of its 128 bits, and an instant counts microseconds.
pub mod Appended
pub mod Found
pub mod Integrity
pub mod Preserved
use thinking_feature_flag_se.Common.{
  ℕ, suc, ◌+◌, String, Bool, ◌&&◌, Option, none, some, List, [], ◌∷◌, ◌++◌, map, ◌==◌, nat_eq,
  string_eq, if◌then◌else◌, first, select,
}
use thinking_feature_flag_se.Values.{Environment, environment_eq, FlagType, FlagValue}
use thinking_feature_flag_se.Evaluation.{Rule}

abbrev pub Uuid : Type 0
Uuid = ℕ

abbrev pub Instant : Type 0
Instant = ℕ

pub data AuditAction : Type 0 where
  flag_created flag_updated flag_archived config_updated : AuditAction

pub record Tenant : Type 0 where
  pub id : Uuid
  pub name : String
  pub created_at : Instant
  pub updated_at : Instant

pub record ApiKey : Type 0 where
  pub id : Uuid
  pub tenant_id : Uuid
  pub key_hash : String
  pub name : String
  pub created_at : Instant

pub record Flag : Type 0 where
  pub id : Uuid
  pub tenant_id : Uuid
  pub key : String
  pub name : String
  pub description : Option String
  pub type : FlagType
  pub default_value : FlagValue
  pub archived_at : Option Instant
  pub created_at : Instant
  pub updated_at : Instant

pub record FlagEnvironmentConfig : Type 0 where
  pub flag_id : Uuid
  pub environment : Environment
  pub tenant_id : Uuid
  pub enabled : Bool
  pub value : FlagValue
  pub rollout_percentage : ℕ
  pub targeting_rules : List Rule
  pub created_at : Instant
  pub updated_at : Instant

-- One entry of a dict of flag fields, or of config fields, with its key and its value.
pub data FlagChange : Type 0 where
  set_name : String → FlagChange
  set_description : Option String → FlagChange
  set_default_value : FlagValue → FlagChange

pub data ConfigChange : Type 0 where
  set_enabled : Bool → ConfigChange
  set_rollout_percentage : ℕ → ConfigChange
  set_targeting_rules : List Rule → ConfigChange
  set_value : FlagValue → ConfigChange

-- The dicts that the handlers write to `old_value` and `new_value`.
pub data AuditValue : Type 0 where
  -- key, name, type and default_value
  definition : String → String → String → FlagValue → AuditValue
  flag_fields : List FlagChange → AuditValue
  config_fields : List ConfigChange → AuditValue
  -- `{"archived_at": …}`
  archive_mark : Option Instant → AuditValue

pub record FlagAuditLog : Type 0 where
  pub id : ℕ
  pub tenant_id : Uuid
  pub flag_id : Uuid
  pub environment : Option Environment
  pub action : AuditAction
  pub old_value : Option AuditValue
  pub new_value : Option AuditValue
  pub actor_key_id : Uuid
  pub created_at : Instant

pub record Database : Type 0 where
  pub tenants : List Tenant
  pub api_keys : List ApiKey
  pub flags : List Flag
  pub configs : List FlagEnvironmentConfig
  pub audit_log : List FlagAuditLog
  -- the sequence behind `flag_audit_log.id`
  pub last_audit_id : ℕ

-- `db.add(FlagAuditLog(…))`: the sequence gives the id.
unfoldable pub add_audit :
    Uuid
    → Uuid
    → Option Environment
    → AuditAction
    → Option AuditValue
    → Option AuditValue
    → Uuid
    → Instant
    → Database
    → Database
add_audit tenant_id flag_id environment action old_value new_value actor_key_id now db = record db {
  audit_log =
      db.audit_log
      ++ record {
        id = db.last_audit_id + 1;
        tenant_id = tenant_id;
        flag_id = flag_id;
        environment = environment;
        action = action;
        old_value = old_value;
        new_value = new_value;
        actor_key_id = actor_key_id;
        created_at = now;
      }
        ∷ [];
  last_audit_id = db.last_audit_id + 1;
}

-- `select(Flag).where(Flag.tenant_id == tenant_id, Flag.key == flag_key)`
abbrev pub is_flag : Uuid → String → Flag → Bool
is_flag tenant_id flag_key f = f.tenant_id == tenant_id && f.key == flag_key

unfoldable pub find_flag : Uuid → String → Database → Option Flag
find_flag tenant_id flag_key db = first (is_flag tenant_id flag_key) db.flags

abbrev pub is_config : Uuid → Environment → FlagEnvironmentConfig → Bool
is_config flag_id environment c = c.flag_id == flag_id && c.environment == environment

-- `db.get(FlagEnvironmentConfig, (flag_id, environment))`
unfoldable pub find_config : Uuid → Environment → Database → Option FlagEnvironmentConfig
find_config flag_id environment db = first (is_config flag_id environment) db.configs

-- The UPDATE that a flush sends for a changed row, by its primary key.
unfoldable pub update_flag_row : Flag → List Flag → List Flag
update_flag_row flag [] = []
update_flag_row flag (f ∷ flags) =
    (if f.id == flag.id then flag else f) ∷ update_flag_row flag flags

unfoldable pub update_config_row :
    FlagEnvironmentConfig → List FlagEnvironmentConfig → List FlagEnvironmentConfig
update_config_row config [] = []
update_config_row config (c ∷ configs) =
    (if is_config config.flag_id config.environment c then config else c)
    ∷ update_config_row config configs
