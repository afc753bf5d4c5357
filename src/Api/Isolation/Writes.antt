-- ===== src/Api/Isolation/Writes.antt =====
-- What one tenant's writes to a row leave to another tenant (the queries of app/routers, which filter
-- by the tenant).
use thinking_feature_flag_se.Common.{
  ℕ, ◌≡◌, ◌≢◌, inl, refl, sym, ◌∙◌, false, List, [], ◌∷◌, ◌++◌, arith, ◌==◌, nat_eq, All, All-map,
  All-at, select,
}
use thinking_feature_flag_se.Values.{Environment}
use thinking_feature_flag_se.Models.{
  Uuid, Flag, FlagEnvironmentConfig, FlagAuditLog, Database, update_flag_row, update_config_row,
}
use thinking_feature_flag_se.Models.Integrity.{IsSound, OwnsId}
use thinking_feature_flag_se.Routers.Evaluate.{compile}
use thinking_feature_flag_se.Routers.Evaluate.Compiled.{
  select-append, join-update_flag_row, join-update_config_row,
}
use thinking_feature_flag_se.Routers.Flags.Create.{}
use thinking_feature_flag_se.Routers.Flags.Update.{}
use thinking_feature_flag_se.Routers.Flags.Update.Steps.{}
use thinking_feature_flag_se.Api.Effect.{}

-- The rows of a tenant, and its compiled flag sets, are the same in both databases.
pub record SameFor (other : Uuid) (db db' : Database) : Type 0 where
  pub flags :
      select (λ (f : Flag). f.tenant_id == other) db'.flags
      ≡ select (λ (f : Flag). f.tenant_id == other) db.flags
  pub configs :
      select (λ (c : FlagEnvironmentConfig). c.tenant_id == other) db'.configs
      ≡ select (λ (c : FlagEnvironmentConfig). c.tenant_id == other) db.configs
  pub history :
      select (λ (a : FlagAuditLog). a.tenant_id == other) db'.audit_log
      ≡ select (λ (a : FlagAuditLog). a.tenant_id == other) db.audit_log
  pub compiled :
      (environment : Environment) → compile db' other environment ≡ compile db other environment

pub SameFor-refl : (other : Uuid) (db : Database) → SameFor other db db
SameFor-refl other db = record {
  flags = refl;
  configs = refl;
  history = refl;
  compiled = λ e. refl;
}

pub SameFor-trans :
    {other : Uuid} {a b c : Database} → SameFor other a b → SameFor other b c → SameFor other a c
SameFor-trans x y = record {
  flags = y.flags ∙ x.flags;
  configs = y.configs ∙ x.configs;
  history = y.history ∙ x.history;
  compiled = λ e. y.compiled e ∙ x.compiled e;
}

other_tenant : (t other : Uuid) → other ≢ t → (t == other) ≡ false
other_tenant t other ne = ground arith

module _ (t other : Uuid) (ne : other ≢ t) where
  select-update_flag_row :
      (new : Flag) (flags : List Flag)
      → new.tenant_id ≡ t
      → OwnsId t new.id flags
      → select (λ (f : Flag). f.tenant_id == other) (update_flag_row new flags)
        ≡ select (λ (f : Flag). f.tenant_id == other) flags
  unfolding update_flag_row
  select-update_flag_row new [] e h = refl
  select-update_flag_row new (f ∷ flags) e h =
      ground (arith, h.0, select-update_flag_row new flags e h.1)

  -- All configs of a flag belong to the tenant.
  abbrev OwnsConfigs : Uuid → List FlagEnvironmentConfig → Type 0
  OwnsConfigs id configs =
      All (λ (c : FlagEnvironmentConfig). c.flag_id ≡ id → c.tenant_id ≡ t) configs

  select-update_tenant_config :
      (new : FlagEnvironmentConfig) (configs : List FlagEnvironmentConfig)
      → new.tenant_id ≡ t
      → OwnsConfigs new.flag_id configs
      → select (λ (c : FlagEnvironmentConfig). c.tenant_id == other) (update_config_row new configs)
        ≡ select (λ (c : FlagEnvironmentConfig). c.tenant_id == other) configs
  unfolding update_config_row
  select-update_tenant_config new [] e h = refl
  select-update_tenant_config new (c ∷ configs) e h =
      ground (arith, h.0, select-update_tenant_config new configs e h.1)

  -- A row of the tenant at the end of a log is not one of the other.
  select-log :
      (log : List FlagAuditLog) (row : FlagAuditLog)
      → row.tenant_id ≡ t
      → select (λ (a : FlagAuditLog). a.tenant_id == other) (log ++ row ∷ [])
        ≡ select (λ (a : FlagAuditLog). a.tenant_id == other) log
  select-log log row e = select-append _ log (row ∷ []) (ground arith, tt)

  -- A new version of a flag of the tenant, with a record of it.
  pub flag_write :
      (db : Database) (new : Flag) (row : FlagAuditLog) (last : ℕ)
      → new.tenant_id ≡ t
      → row.tenant_id ≡ t
      → OwnsId t new.id db.flags
      → SameFor other db (record db {
        flags = update_flag_row new db.flags;
        audit_log = db.audit_log ++ row ∷ [];
        last_audit_id = last;
      })
  unfolding compile
  flag_write db new row last e a h = record {
    flags = select-update_flag_row new db.flags e h;
    configs = refl;
    history = select-log db.audit_log row a;
    compiled =
        λ environment. join-update_flag_row t other environment db.configs new db.flags e ne h;
  }

  pub config_write :
      (db : Database) (new : FlagEnvironmentConfig) (row : FlagAuditLog) (last : ℕ)
      → new.tenant_id ≡ t
      → row.tenant_id ≡ t
      → OwnsId t new.flag_id db.flags
      → OwnsConfigs new.flag_id db.configs
      → SameFor other db (record db {
        configs = update_config_row new db.configs;
        audit_log = db.audit_log ++ row ∷ [];
        last_audit_id = last;
      })
  unfolding compile
  config_write db new row last e a h hc = record {
    flags = refl;
    configs = select-update_tenant_config new db.configs e hc;
    history = select-log db.audit_log row a;
    compiled = λ environment.
        join-update_config_row t other environment new db.configs db.flags (inl ne) h;
  }

  -- In sound tables the configs of the tenant's flag are the tenant's.
  pub sound-OwnsConfigs :
      (db : Database) (id : Uuid) → IsSound db → OwnsId t id db.flags → OwnsConfigs id db.configs
  sound-OwnsConfigs db id s h =
      All-map (λ c o e. sym o.same_tenant ∙ All-at _ o.place h (o.same_id ∙ e)) db.configs s.owned
