-- ===== src/Api/Retold.antt =====
-- What the audit log tells of the flags, under every request (all handlers of app/routers).
pub mod Configs
use thinking_feature_flag_se.Common.{
  ◌≡◌, ◌≢◌, refl, sym, ap, subst, ◌∙◌, String, Bool, true, false, Option, none, some, List, [], ◌∷◌,
  ◌++◌, ◌==◌, nat_eq, if◌then◌else◌, All, All-at, All-map, All-append, In, arith, Bool-cases, inl,
  inr, eq_of_test, ne_of_test,
}
use thinking_feature_flag_se.Models.{
  Instant, ApiKey, Flag, Database, FlagAuditLog, FlagChange, add_audit, update_flag_row,
}
use thinking_feature_flag_se.Models.Integrity.{
  IsSound, IsTyped, DistinctIds, DistinctIds-eq, All-of_In, find_flag-In,
}
use thinking_feature_flag_se.Models.Preserved.{IsVersion, All-replaced}
use thinking_feature_flag_se.Schemas.{FlagUpdate}
use thinking_feature_flag_se.Services.{Services}
use thinking_feature_flag_se.World.{World}
use thinking_feature_flag_se.Routers.Flags.Create.{flag_conflicts, with_new_flag}
use thinking_feature_flag_se.Routers.Flags.Create.Sound.{no_conflict-ids}
use thinking_feature_flag_se.Routers.Flags.Update.{
  changed_flag, write_flag, with_flag_fields, with_config_fields, update_session,
}
use thinking_feature_flag_se.Routers.Flags.Update.Steps.{
  ConfigStep, no_environment, no_change, changed, update_session-steps,
}
use thinking_feature_flag_se.Routers.Flags.Update.Sound.{changed_flag-IsVersion, write_flag-Written}
use thinking_feature_flag_se.Routers.Flags.Archive.{archived_flag, with_archived}
use thinking_feature_flag_se.Routers.Flags.Archive.Sound.{archived_flag-IsVersion}
use thinking_feature_flag_se.Api.{Call, handle, serve}
use thinking_feature_flag_se.Api.Effect.{
  Effect, reads, fills, creates, updates, archives, Step, refused, tenant_made, under, handle-Step,
}
use thinking_feature_flag_se.Api.Sound.{Step-IsSound}
use thinking_feature_flag_se.Api.Retold.Configs.{
  IsRetoldInConfigs, with_new_flag-IsRetoldInConfigs, write_flag-IsRetoldInConfigs,
  with_archived-IsRetoldInConfigs, ConfigStep-IsRetoldInConfigs,
}
use thinking_feature_flag_se.Api.Replay.{
  Told, told_of, tell, tell_flag, replay_silent, replay, replay_other, replay_own,
  told_of-changed_flag,
}

-- The log tells of a flag what its row says.
abbrev pub Retells : List FlagAuditLog → Flag → Type 0
Retells log flag = replay tell_flag flag.id none log ≡ some (told_of flag)

abbrev pub IsRetoldInFlags : Database → Type 0
IsRetoldInFlags db = All (Retells db.audit_log) db.flags

Retells-other :
    (log : List FlagAuditLog) (entry : FlagAuditLog) (flag : Flag)
    → entry.flag_id ≢ flag.id
    → Retells log flag
    → Retells (log ++ entry ∷ []) flag
Retells-other log entry flag apart h = replay_other tell_flag flag.id log entry apart ∙ h

-- A new version of a row, and a record that tells the change.
update-IsRetoldInFlags :
    {old new : Flag} (flags : List Flag) (log : List FlagAuditLog) (entry : FlagAuditLog)
    → IsVersion old new
    → DistinctIds flags
    → In old flags
    → entry.flag_id ≡ old.id
    → tell entry.new_value (some (told_of old)) ≡ some (told_of new)
    → All (Retells log) flags
    → All (Retells (log ++ entry ∷ [])) (update_flag_row new flags)
update-IsRetoldInFlags {old} {new} flags log entry version distinct place about told h =
    All-replaced version (Retells log) (Retells (log ++ entry ∷ [])) flags
      (λ g m retold. elim (Bool-cases (g.id == new.id)) [
        | inr other ↦ rw other (
            Retells-other log entry g
              (λ same. ne_of_test g.id new.id other (sym same ∙ about ∙ sym version.same_id))
              retold)
        | inl same ↦
            let is_old : g ≡ old =
              DistinctIds-eq distinct m place (eq_of_test g.id new.id same ∙ version.same_id) in
            rw same (
              replay_own tell_flag new.id log entry (about ∙ sym version.same_id)
              ∙ ap (tell entry.new_value) (
                  ap (λ id. replay tell_flag id none log) version.same_id
                  ∙ subst (Retells log) is_old retold)
              ∙ told)
      ])
      h

module _ (k : ApiKey) (now : Instant) where
  with_new_flag-IsRetoldInFlags :
      (flag : Flag) (db : Database)
      → flag.archived_at ≡ none
      → flag_conflicts flag db ≡ false
      → IsRetoldInFlags db
      → IsRetoldInFlags (with_new_flag flag k now db)
  unfolding with_new_flag add_audit tell
  with_new_flag-IsRetoldInFlags flag db active free h =
      All-append (Retells _) db.flags (flag ∷ [])
        (All-of_In (Retells _) db.flags (λ g m.
          Retells-other db.audit_log _ g
            (λ same. All-at _ m (no_conflict-ids flag db free) (sym same)) (All-at _ m h)))
        (
          replay_own tell_flag flag.id db.audit_log _ refl
              ∙ ap (λ archived_at. some (record (told_of flag) { archived_at = archived_at }))
                  (sym active),
          tt,
        )

  write_flag-IsRetoldInFlags :
      (flag : Flag) (changes : List FlagChange) (db : Database)
      → In flag db.flags
      → IsSound db
      → IsRetoldInFlags db
      → IsRetoldInFlags (write_flag k now flag changes db).0
  unfolding write_flag with_flag_fields add_audit
  write_flag-IsRetoldInFlags flag [] db place sound h = h
  write_flag-IsRetoldInFlags flag (change ∷ changes) db place sound h =
      update-IsRetoldInFlags db.flags db.audit_log _
        (changed_flag-IsVersion flag (change ∷ changes) now) sound.distinct_ids place refl
        (told_of-changed_flag flag (change ∷ changes) now) h

  with_archived-IsRetoldInFlags :
      (flag : Flag) (db : Database)
      → In flag db.flags
      → IsSound db
      → IsRetoldInFlags db
      → IsRetoldInFlags (with_archived k now flag db)
  unfolding with_archived add_audit tell
  with_archived-IsRetoldInFlags flag db place sound h =
      update-IsRetoldInFlags db.flags db.audit_log _ (archived_flag-IsVersion flag now)
        sound.distinct_ids place refl refl h

  module _ (services : Services) (payload : FlagUpdate) where
    ConfigStep-IsRetoldInFlags :
        {flag : Flag} {db db' : Database}
        → ConfigStep services payload k now flag db db'
        → IsRetoldInFlags db
        → IsRetoldInFlags db'
    unfolding with_config_fields add_audit tell
    ConfigStep-IsRetoldInFlags (no_environment n e) h = subst IsRetoldInFlags (sym e) h
    ConfigStep-IsRetoldInFlags (no_change environment config n found e) h =
        subst IsRetoldInFlags (sym e) h
    ConfigStep-IsRetoldInFlags {flag} {db}
          (changed environment config fields n found some_field typed differ fits e) h =
        subst IsRetoldInFlags (sym e) (
          All-map {Q = Retells _}
            (λ f h'. replay_silent tell_flag f.id db.audit_log _ (λ told. refl) ∙ h') db.flags h)

-- The log tells of every flag and of every config what the row says.
pub record IsRetold (db : Database) : Type 0 where
  pub flags : IsRetoldInFlags db
  pub configs : IsRetoldInConfigs db

module _ (services : Services) where
  Effect-IsRetold :
      {k : ApiKey} {db : Database} {server : services.redis.Server} {db' : Database}
      {server' : services.redis.Server}
      → Effect services k db server db' server'
      → IsSound db
      → IsRetold db
      → IsRetold db'
  Effect-IsRetold (reads e s) sound h = subst IsRetold (sym e) h
  Effect-IsRetold (fills environment e s) sound h = subst IsRetold (sym e) h
  Effect-IsRetold {k} {db} (creates flag now owned typed active free e s) sound h =
      subst IsRetold (sym e) (record {
        flags = with_new_flag-IsRetoldInFlags k now flag db active free h.flags;
        configs = with_new_flag-IsRetoldInConfigs k now flag db free sound h.configs;
      })
  Effect-IsRetold {k} {db} (updates payload flag_key now flag changes run s) sound h =
      let steps = update_session-steps services payload k now flag_key db run in
      let place = (find_flag-In k.tenant_id flag_key db steps.found).0 in
      let written = write_flag-Written k now steps.flag changes db steps.typed place sound in
      record {
        flags =
            ConfigStep-IsRetoldInFlags k now services payload steps.config_step
              (write_flag-IsRetoldInFlags k now steps.flag changes db place sound h.flags);
        configs =
            ConfigStep-IsRetoldInConfigs k now services payload steps.config_step written.sound
              (write_flag-IsRetoldInConfigs k now steps.flag changes db h.configs);
      }
  Effect-IsRetold {k} {db} (archives flag_key now flag found active e s) sound h =
      let place = (find_flag-In k.tenant_id flag_key db found).0 in
      subst IsRetold (sym e) (record {
        flags = with_archived-IsRetoldInFlags k now flag db place sound h.flags;
        configs = with_archived-IsRetoldInConfigs k now flag db h.configs;
      })

  Step-IsRetold :
      {x_api_key : Option String} {w w' : World services.redis}
      → Step services x_api_key w w'
      → IsSound w.database
      → IsRetold w.database
      → IsRetold w'.database
  Step-IsRetold (refused e) sound h = subst (λ v. IsRetold v.database) (sym e) h
  Step-IsRetold (tenant_made admitted tenant key e) sound h =
      subst (λ v. IsRetold v.database) (sym e) (record { flags = h.flags; configs = h.configs })
  Step-IsRetold (under k authenticated effect) sound h = Effect-IsRetold effect sound h

  -- Over well-formed tables, the audit log tells the present state, and any requests, accepted or
  -- refused, keep that so: replaying the new values of a flag's records, from its creation on, gives
  -- the name, the default and the archive mark in its row, and for each environment whether the config
  -- is enabled, its value, its percentage and its rules. (The description of a new flag is not recorded.)
  pub serve-IsRetold :
      (requests : List (Option String × Call)) (w : World services.redis)
      → IsSound w.database
      → IsRetold w.database
      → IsRetold (serve services requests w).database
  unfolding serve
  serve-IsRetold [] w sound h = h
  serve-IsRetold ((x_api_key, call) ∷ requests) w sound h =
      let step = handle-Step services x_api_key call w in
      serve-IsRetold requests (handle services x_api_key call w).1
        (Step-IsSound services step sound) (Step-IsRetold step sound h)
