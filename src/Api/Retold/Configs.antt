-- ===== src/Api/Retold/Configs.antt =====
-- What the audit log tells of the configs, under every request (all handlers of app/routers).
use thinking_feature_flag_se.Common.{
  ◌≡◌, refl, sym, ap, subst, ◌∙◌, true, false, Option, none, some, List, [], ◌∷◌, ◌++◌, ◌==◌,
  nat_eq, if◌then◌else◌, All, All-at, All-map, All-append, In, here, there, arith, Bool-cases, inl,
  inr, eq_of_test, ne_of_test, eq_self, map,
}
use thinking_feature_flag_se.Values.{
  Environment, FlagValue, environment_eq, environments, development, staging, production,
}
use thinking_feature_flag_se.Models.{
  Instant, ApiKey, Flag, FlagEnvironmentConfig, Database, FlagAuditLog, FlagChange, ConfigChange,
  config_fields, add_audit, update_config_row, is_config,
}
use thinking_feature_flag_se.Models.Integrity.{
  IsSound, IsOwned, OnePerPlace, OnePerPlace-eq, All-of_In, find_config-In,
}
use thinking_feature_flag_se.Schemas.{FlagUpdate}
use thinking_feature_flag_se.Services.{Services}
use thinking_feature_flag_se.Routers.Flags.Changes.Typed.{assign_config_all-keeps}
use thinking_feature_flag_se.Routers.Flags.Create.{
  seed_value, seeded_config, flag_conflicts, with_new_flag,
}
use thinking_feature_flag_se.Routers.Flags.Create.Sound.{no_conflict-ids}
use thinking_feature_flag_se.Routers.Flags.Update.{
  changed_config, write_flag, with_flag_fields, with_config_fields,
}
use thinking_feature_flag_se.Routers.Flags.Update.Steps.{
  ConfigStep, no_environment, no_change, changed,
}
use thinking_feature_flag_se.Routers.Flags.Archive.{with_archived}
use thinking_feature_flag_se.Api.Effect.{}
use thinking_feature_flag_se.Api.Replay.{replay, replay_other, replay_own, replay_silent}
use thinking_feature_flag_se.Api.Replay.Configs.{
  Setting, setting_of, is_in_environment, tell_config, seed_told-value, tell_config-changed,
  tell_config_elsewhere,
}

-- The log tells of a config what its row says.
abbrev pub RetellsConfig : List FlagAuditLog → FlagEnvironmentConfig → Type 0
RetellsConfig log c = replay (tell_config c.environment) c.flag_id none log ≡ some (setting_of c)

abbrev pub IsRetoldInConfigs : Database → Type 0
IsRetoldInConfigs db = All (RetellsConfig db.audit_log) db.configs

All-update_config_rows :
    (new : FlagEnvironmentConfig) (P Q : FlagEnvironmentConfig → Type 0)
    (configs : List FlagEnvironmentConfig)
    → ((c : FlagEnvironmentConfig)
        → In c configs
        → P c
        → Q (if is_config new.flag_id new.environment c then new else c))
    → All P configs
    → All Q (update_config_row new configs)
unfolding update_config_row
All-update_config_rows new P Q [] keeps h = tt
All-update_config_rows new P Q (c ∷ configs) keeps h =
    (keeps c here h.0, All-update_config_rows new P Q configs (λ d m. keeps d (there m)) h.1)

-- A record of config fields about one place leaves every other place as it is told.
RetellsConfig-elsewhere :
    (log : List FlagAuditLog) (entry : FlagAuditLog) (changes : List ConfigChange)
    (c : FlagEnvironmentConfig)
    → entry.new_value ≡ some (config_fields changes)
    → (entry.flag_id ≡ c.flag_id → is_in_environment c.environment entry.environment ≡ false)
    → RetellsConfig log c
    → RetellsConfig (log ++ entry ∷ []) c
RetellsConfig-elsewhere log entry changes c told outside h =
    elim (Bool-cases (entry.flag_id == c.flag_id)) [
      | inr other ↦
          replay_other (tell_config c.environment) c.flag_id log entry
            (ne_of_test entry.flag_id c.flag_id other)
          ∙ h
      | inl own ↦
          replay_silent (tell_config c.environment) c.flag_id log entry (
            tell_config_elsewhere changes c.environment entry
              (outside (eq_of_test entry.flag_id c.flag_id own)) told)
          ∙ h
    ]

-- A config and the record of its change.
module _ (old : FlagEnvironmentConfig) (changes : List ConfigChange) (now : Instant)
    (log : List FlagAuditLog) (entry : FlagAuditLog)
    (told : entry.new_value ≡ some (config_fields changes)) (about : entry.flag_id ≡ old.flag_id)
    (place_told : entry.environment ≡ some old.environment)
    (same_flag : (changed_config old changes now).flag_id ≡ old.flag_id)
    (same_environment : (changed_config old changes now).environment ≡ old.environment) where
  abbrev new : FlagEnvironmentConfig
  new = changed_config old changes now

  new-RetellsConfig : RetellsConfig log old → RetellsConfig (log ++ entry ∷ []) new
  new-RetellsConfig h =
      subst
        (λ (environment : Environment).
          replay (tell_config environment) new.flag_id none (log ++ entry ∷ [])
          ≡ some (setting_of new))
        (sym same_environment)
        (subst
          (λ id.
            replay (tell_config old.environment) id none (log ++ entry ∷ [])
            ≡ some (setting_of new))
          (sym same_flag)
          (replay_own (tell_config old.environment) old.flag_id log entry about
            ∙ ap (tell_config old.environment entry) h
            ∙ tell_config-changed old changes now old.environment entry
                (rw place_told (eq_self old.environment)) told))

  missed_outside :
      (c : FlagEnvironmentConfig)
      → is_config new.flag_id new.environment c ≡ false
      → entry.flag_id ≡ c.flag_id
      → is_in_environment c.environment entry.environment ≡ false
  missed_outside c missed same = elim (Bool-cases (old.environment == c.environment)) [
    | inr other ↦ rw place_told other
    | inl inside ↦
        let env : c.environment ≡ new.environment =
          sym (eq_of_test old.environment c.environment inside) ∙ sym same_environment in
        let id : c.flag_id ≡ new.flag_id = sym same ∙ about ∙ sym same_flag in
        let hit : is_config new.flag_id new.environment c ≡ true =
          rw (id, env) (rw (eq_self new.flag_id, eq_self new.environment) refl) in
        absurd (cc (hit, missed))
  ]

  update-RetellsConfig :
      (configs : List FlagEnvironmentConfig)
      → OnePerPlace configs
      → In old configs
      → All (RetellsConfig log) configs
      → All (RetellsConfig (log ++ entry ∷ [])) (update_config_row new configs)
  update-RetellsConfig configs one place h =
      All-update_config_rows new (RetellsConfig log) (RetellsConfig (log ++ entry ∷ [])) configs
        (λ c m retold. elim (Bool-cases (is_config new.flag_id new.environment c)) [
          | inl hit ↦
              let is_old : c ≡ old = OnePerPlace-eq one m place (
                eq_of_test c.flag_id new.flag_id (ground arith) ∙ same_flag,
                eq_of_test c.environment new.environment (ground arith) ∙ same_environment,
              ) in
              rw hit (new-RetellsConfig (subst (RetellsConfig log) is_old retold))
          | inr missed ↦ rw missed (
              RetellsConfig-elsewhere log entry changes c told
                (λ same. missed_outside c missed same) retold)
        ])
        h

abbrev seeded_setting : FlagValue → Setting
seeded_setting value = record {
  enabled = false;
  value = value;
  rollout_percentage = 100;
  targeting_rules = [];
}

module _ (k : ApiKey) (now : Instant) where
  seeded-RetellsConfig :
      (flag : Flag) (db : Database) (environment : Environment)
      → RetellsConfig
          (with_new_flag flag k now db).audit_log
          (seeded_config flag (seed_value flag.type flag.default_value) now environment)
  unfolding with_new_flag add_audit tell_config
  seeded-RetellsConfig flag db environment =
      replay_own (tell_config environment) flag.id db.audit_log _ refl
      ∙ ap (λ value. some (seeded_setting value)) (seed_told-value flag.type flag.default_value)

  pub with_new_flag-IsRetoldInConfigs :
      (flag : Flag) (db : Database)
      → flag_conflicts flag db ≡ false
      → IsSound db
      → IsRetoldInConfigs db
      → IsRetoldInConfigs (with_new_flag flag k now db)
  unfolding with_new_flag add_audit
  with_new_flag-IsRetoldInConfigs flag db free sound h =
      let seeded = seeded-RetellsConfig flag db in
      All-append (RetellsConfig _) db.configs
        (map (seeded_config flag (seed_value flag.type flag.default_value) now) environments)
        (All-of_In (RetellsConfig _) db.configs (λ c m.
          let owned : IsOwned db.flags c = All-at _ m sound.owned in
          replay_other (tell_config c.environment) c.flag_id db.audit_log _
            (λ same. All-at _ owned.place (no_conflict-ids flag db free) (owned.same_id ∙ sym same))
          ∙ All-at _ m h))
        (seeded development, (seeded staging, (seeded production, tt)))

  -- A record that no config is told by.
  silent-IsRetoldInConfigs :
      (db : Database) (entry : FlagAuditLog)
      → ((environment : Environment) (told : Option Setting)
          → tell_config environment entry told ≡ told)
      → IsRetoldInConfigs db
      → All (RetellsConfig (db.audit_log ++ entry ∷ [])) db.configs
  silent-IsRetoldInConfigs db entry silent h =
      All-map {Q = RetellsConfig (db.audit_log ++ entry ∷ [])}
        (λ c told.
          replay_silent (tell_config c.environment) c.flag_id db.audit_log entry
            (silent c.environment)
          ∙ told)
        db.configs h

  pub write_flag-IsRetoldInConfigs :
      (flag : Flag) (changes : List FlagChange) (db : Database)
      → IsRetoldInConfigs db
      → IsRetoldInConfigs (write_flag k now flag changes db).0
  unfolding write_flag with_flag_fields add_audit tell_config
  write_flag-IsRetoldInConfigs flag [] db h = h
  write_flag-IsRetoldInConfigs flag (change ∷ changes) db h =
      silent-IsRetoldInConfigs db _ (λ environment told. refl) h

  pub with_archived-IsRetoldInConfigs :
      (flag : Flag) (db : Database)
      → IsRetoldInConfigs db
      → IsRetoldInConfigs (with_archived k now flag db)
  unfolding with_archived add_audit tell_config
  with_archived-IsRetoldInConfigs flag db h =
      silent-IsRetoldInConfigs db _ (λ environment told. refl) h

  module _ (services : Services) (payload : FlagUpdate) where
    pub ConfigStep-IsRetoldInConfigs :
        {flag : Flag} {db db' : Database}
        → ConfigStep services payload k now flag db db'
        → IsSound db
        → IsRetoldInConfigs db
        → IsRetoldInConfigs db'
    unfolding with_config_fields add_audit
    ConfigStep-IsRetoldInConfigs (no_environment n e) sound h = subst IsRetoldInConfigs (sym e) h
    ConfigStep-IsRetoldInConfigs (no_change environment config n found e) sound h =
        subst IsRetoldInConfigs (sym e) h
    ConfigStep-IsRetoldInConfigs {flag} {db}
          (changed environment config fields n found some_field typed differ fits e) sound h =
        let (place, same_flag, same_environment) = find_config-In flag.id environment db found in
        let keeps = assign_config_all-keeps flag.type config fields typed in
        subst IsRetoldInConfigs (sym e) (
          update-RetellsConfig config fields now db.audit_log _ refl (sym same_flag)
            (ap some (sym same_environment)) keeps.same_flag keeps.same_environment db.configs
            sound.one_per_place place h)
