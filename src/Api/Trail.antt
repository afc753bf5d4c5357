-- ===== src/Api/Trail.antt =====
-- The audit log under every request (app/routers/flags.py).
use mathlib.Core.List.{append_assoc, append-nil}
use thinking_feature_flag_se.Common.{
  ◌≡◌, ◌≢◌, ◌⊎◌, inl, inr, refl, sym, subst, ap, ◌∙◌, true, String, Option, none, some, List, [],
  ◌∷◌, ◌++◌, All, All-append, map,
}
use thinking_feature_flag_se.Models.{
  Instant, ApiKey, Flag, FlagEnvironmentConfig, Database, FlagAuditLog, FlagChange, ConfigChange,
  flag_fields, config_fields, archive_mark, flag_created, flag_updated, flag_archived,
  config_updated, add_audit,
}
use thinking_feature_flag_se.Models.Integrity.{find_config-In}
use thinking_feature_flag_se.Outcome.{ok}
use thinking_feature_flag_se.Security.{authenticate}
use thinking_feature_flag_se.Schemas.{FlagUpdate}
use thinking_feature_flag_se.Services.{Services}
use thinking_feature_flag_se.World.{World}
use thinking_feature_flag_se.Routers.Flags.Changes.{
  stored_flag, stored_config, flag_differs, config_differs,
}
use thinking_feature_flag_se.Routers.Flags.Create.{with_new_flag}
use thinking_feature_flag_se.Routers.Flags.Update.{write_flag, with_flag_fields, with_config_fields}
use thinking_feature_flag_se.Routers.Flags.Update.Steps.{
  ConfigStep, no_environment, no_change, changed, update_session-steps,
}
use thinking_feature_flag_se.Routers.Flags.Archive.{with_archived}
use thinking_feature_flag_se.Api.{Call, handle, serve}
use thinking_feature_flag_se.Api.Effect.{
  Effect, reads, fills, creates, updates, archives, Step, refused, tenant_made, under, handle-Step,
}

-- What an audit record may hold: a creation, an archiving, or an update with at least one field, each
-- of which was stored as the old value says and differs from the new one.
pub data IsTruthful (row : FlagAuditLog) : Type 0 where
  of_creation :
      row.action ≡ flag_created → row.environment ≡ none → row.old_value ≡ none → IsTruthful row
  of_archiving :
      row.action ≡ flag_archived
      → row.environment ≡ none
      → row.old_value ≡ some (archive_mark none)
      → IsTruthful row
  of_flag :
      (flag : Flag) (fields : List FlagChange)
      → row.action ≡ flag_updated
      → row.environment ≡ none
      → fields ≢ []
      → All (λ change. flag_differs flag change ≡ true) fields
      → row.old_value ≡ some (flag_fields (map (stored_flag flag) fields))
      → row.new_value ≡ some (flag_fields fields)
      → IsTruthful row
  of_config :
      (config : FlagEnvironmentConfig) (fields : List ConfigChange)
      → row.action ≡ config_updated
      → row.environment ≡ some config.environment
      → fields ≢ []
      → All (λ change. config_differs config change ≡ true) fields
      → row.old_value ≡ some (config_fields (map (stored_config config) fields))
      → row.new_value ≡ some (config_fields fields)
      → IsTruthful row

-- A record of what the key `k` did.
pub record IsRecordOf (k : ApiKey) (row : FlagAuditLog) : Type 0 where
  pub actor : row.actor_key_id ≡ k.id
  pub tenant : row.tenant_id ≡ k.tenant_id
  pub truthful : IsTruthful row

-- The log `new` is the log `old` with records of what `k` did behind it.
pub record Extends (k : ApiKey) (old new : List FlagAuditLog) : Type 0 where
  pub rows : List FlagAuditLog
  pub appended : new ≡ old ++ rows
  pub records : All (IsRecordOf k) rows

Extends-refl : (k : ApiKey) (old : List FlagAuditLog) → Extends k old old
Extends-refl k old = record { rows = []; appended = sym (append-nil old); records = tt }

Extends-trans :
    {k : ApiKey} {a b c : List FlagAuditLog} → Extends k a b → Extends k b c → Extends k a c
Extends-trans {a = a} x y = record {
  rows = x.rows ++ y.rows;
  appended = y.appended ∙ ap (λ l. l ++ y.rows) x.appended ∙ append_assoc a x.rows y.rows;
  records = All-append _ x.rows y.rows x.records y.records;
}

write_flag-Extends :
    (k : ApiKey) (now : Instant) (flag : Flag) (fields : List FlagChange) (db : Database)
    → All (λ change. flag_differs flag change ≡ true) fields
    → Extends k db.audit_log (write_flag k now flag fields db).0.audit_log
unfolding write_flag with_flag_fields add_audit
write_flag-Extends k now flag [] db differ = Extends-refl k db.audit_log
write_flag-Extends k now flag (change ∷ changes) db differ = record {
  rows = _;
  appended = refl;
  records = (
    record {
      actor = refl;
      tenant = refl;
      truthful = of_flag flag (change ∷ changes) refl refl (λ e. cc) differ refl refl;
    },
    tt,
  );
}

module _ (services : Services) where
  ConfigStep-Extends :
      (payload : FlagUpdate) (k : ApiKey) (now : Instant) {flag : Flag} {db db' : Database}
      → ConfigStep services payload k now flag db db'
      → Extends k db.audit_log db'.audit_log
  unfolding with_config_fields add_audit
  ConfigStep-Extends payload k now {db = db} (no_environment n e) =
      subst (λ (d : Database). Extends k db.audit_log d.audit_log) (sym e)
        (Extends-refl k db.audit_log)
  ConfigStep-Extends payload k now {db = db} (no_change environment config n found e) =
      subst (λ (d : Database). Extends k db.audit_log d.audit_log) (sym e)
        (Extends-refl k db.audit_log)
  ConfigStep-Extends payload k now {flag} {db}
        (changed environment config fields n found some_field typed differ fits e) =
      subst (λ (d : Database). Extends k db.audit_log d.audit_log) (sym e)
        (record {
          rows = _;
          appended = refl;
          records = (
            record {
              actor = refl;
              tenant = refl;
              truthful =
                  of_config config fields refl
                    (ap some (sym (find_config-In flag.id environment db found).2)) some_field
                    differ refl refl;
            },
            tt,
          );
        })

  Effect-Extends :
      {k : ApiKey} {db : Database} {server : services.redis.Server} {db' : Database}
      {server' : services.redis.Server}
      → Effect services k db server db' server'
      → Extends k db.audit_log db'.audit_log
  unfolding with_new_flag with_archived add_audit
  Effect-Extends {k} {db} (reads e s) =
      subst (λ (d : Database). Extends k db.audit_log d.audit_log) (sym e)
        (Extends-refl k db.audit_log)
  Effect-Extends {k} {db} (fills environment e s) =
      subst (λ (d : Database). Extends k db.audit_log d.audit_log) (sym e)
        (Extends-refl k db.audit_log)
  Effect-Extends {k} {db} (creates flag now owned typed active free e s) =
      subst (λ (d : Database). Extends k db.audit_log d.audit_log) (sym e)
        (record {
          rows = _;
          appended = refl;
          records =
              (record { actor = refl; tenant = owned; truthful = of_creation refl refl refl }, tt);
        })
  Effect-Extends {k} {db} {db' = db'} (updates payload flag_key now flag' changes run s) =
      let steps = update_session-steps services payload k now flag_key db run in
      Extends-trans (write_flag-Extends k now steps.flag changes db steps.differ)
        (ConfigStep-Extends payload k now steps.config_step)
  Effect-Extends {k} {db} (archives flag_key now flag found active e s) =
      subst (λ (d : Database). Extends k db.audit_log d.audit_log) (sym e)
        (record {
          rows = _;
          appended = refl;
          records =
              (record { actor = refl; tenant = refl; truthful = of_archiving refl refl refl }, tt);
        })

  pub handle-Extends :
      (x_api_key : Option String) (call : Call) (w : World services.redis)
      → let w' = (handle services x_api_key call w).1 in
        (w'.database.audit_log ≡ w.database.audit_log)
        ⊎ ((k : ApiKey) × (authenticate services.platform w.database x_api_key ≡ ok k)
            × Extends k w.database.audit_log w'.database.audit_log)
  handle-Extends x_api_key call w = of_step (handle-Step services x_api_key call w)
    where
      of_step :
          {w' : World services.redis}
          → Step services x_api_key w w'
          → (w'.database.audit_log ≡ w.database.audit_log)
            ⊎ ((k : ApiKey) × (authenticate services.platform w.database x_api_key ≡ ok k)
                × Extends k w.database.audit_log w'.database.audit_log)
      of_step (refused e) = inl (ap (λ (v : World services.redis). v.database.audit_log) e)
      of_step (tenant_made admitted tenant key e) =
          inl (ap (λ (v : World services.redis). v.database.audit_log) e)
      of_step (under k authenticated effect) = inr (k, authenticated, Effect-Extends effect)

  -- Whatever is requested, the audit log only grows at its end.
  pub serve-append_only :
      (requests : List (Option String × Call)) (w : World services.redis)
      → (rows : List FlagAuditLog) × ((serve services requests w).database.audit_log
          ≡ w.database.audit_log ++ rows)
  unfolding serve
  serve-append_only [] w = ([], sym (append-nil w.database.audit_log))
  serve-append_only ((x_api_key, call) ∷ requests) w =
      let w' = (handle services x_api_key call w).1 in
      let (later, e) = serve-append_only requests w' in
      let (added, e') = grown (handle-Extends x_api_key call w) in
      (added ++ later, e ∙ ap (λ l. l ++ later) e' ∙ append_assoc w.database.audit_log added later)
    where
      grown :
          {log : List FlagAuditLog}
          → (log ≡ w.database.audit_log)
            ⊎ ((k : ApiKey) × (authenticate services.platform w.database x_api_key ≡ ok k)
                × Extends k w.database.audit_log log)
          → (rows : List FlagAuditLog) × (log ≡ w.database.audit_log ++ rows)
      grown (inl e) = ([], e ∙ sym (append-nil w.database.audit_log))
      grown (inr (k, authenticated, x)) = (x.rows, x.appended)
