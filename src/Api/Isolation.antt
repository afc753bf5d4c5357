-- ===== src/Api/Isolation.antt =====
-- Tenant isolation: what a request under one tenant's key leaves of another tenant's data (all
-- handlers of app/routers, behind the dependencies of app/security.py).
pub mod Writes
use thinking_feature_flag_se.Common.{
  ℕ, ◌≡◌, ◌≢◌, inl, refl, sym, ap, subst, ◌∙◌, false, String, Option, List, [], ◌∷◌, ◌++◌, map,
  arith, ◌==◌, nat_eq, All, All-map, All-at, In, select,
}
use thinking_feature_flag_se.Values.{Environment, environments, FlagValue}
use thinking_feature_flag_se.Models.{
  Uuid, Instant, ApiKey, Flag, FlagEnvironmentConfig, FlagAuditLog, Database, FlagChange, add_audit,
  update_flag_row, update_config_row,
}
use thinking_feature_flag_se.Models.Integrity.{
  IsSound, OwnsId, DistinctIds-OwnsId, find_flag-In, find_config-In,
}
use thinking_feature_flag_se.Schemas.{FlagUpdate}
use thinking_feature_flag_se.Outcome.{ok}
use thinking_feature_flag_se.Services.{Services}
use thinking_feature_flag_se.Security.{authenticate}
use thinking_feature_flag_se.World.{World}
use thinking_feature_flag_se.Routers.Evaluate.{compile}
use thinking_feature_flag_se.Routers.Evaluate.Compiled.{
  select-append, join-update_flag_row, join-update_config_row, join-append,
}
use thinking_feature_flag_se.Routers.Flags.Changes.Typed.{assign_config_all-keeps}
use thinking_feature_flag_se.Routers.Flags.Create.{
  with_new_flag, flag_conflicts, seeded_config, seed_value,
}
use thinking_feature_flag_se.Routers.Flags.Create.Sound.{no_conflict-ids}
use thinking_feature_flag_se.Routers.Flags.Update.{
  write_flag, with_flag_fields, with_config_fields, changed_config, changed_flag,
}
use thinking_feature_flag_se.Routers.Flags.Update.Steps.{
  ConfigStep, no_environment, no_change, changed, update_session-steps,
}
use thinking_feature_flag_se.Routers.Flags.Update.Sound.{changed_flag-IsVersion, write_flag-Written}
use thinking_feature_flag_se.Routers.Flags.Archive.{with_archived, archived_flag}
use thinking_feature_flag_se.Api.{Call, handle}
use thinking_feature_flag_se.Api.Effect.{
  Effect, reads, fills, creates, updates, archives, Step, refused, tenant_made, under, handle-Step,
}
use thinking_feature_flag_se.Api.Isolation.Writes.{
  SameFor, SameFor-refl, SameFor-trans, config_write, flag_write, sound-OwnsConfigs,
}

module _ (services : Services) (k : ApiKey) (other : Uuid) (ne : other ≢ k.tenant_id) where
  -- The rows with the id of a flag of the key's tenant are that tenant's.
  pub owns :
      {db : Database} (flag : Flag)
      → IsSound db
      → In flag db.flags
      → flag.tenant_id ≡ k.tenant_id
      → OwnsId k.tenant_id flag.id db.flags
  owns {db} flag s place e =
      subst (λ t. OwnsId t flag.id db.flags) e (DistinctIds-OwnsId s.distinct_ids place)

  write_flag-SameFor :
      (now : Instant) (flag : Flag) (fields : List FlagChange) (db : Database)
      → IsSound db
      → In flag db.flags
      → flag.tenant_id ≡ k.tenant_id
      → SameFor other db (write_flag k now flag fields db).0
  unfolding write_flag with_flag_fields add_audit
  write_flag-SameFor now flag [] db s place e = SameFor-refl other db
  write_flag-SameFor now flag (change ∷ changes) db s place e =
      let v = changed_flag-IsVersion flag (change ∷ changes) now in
      flag_write k.tenant_id other ne db (changed_flag flag (change ∷ changes) now) _ _
        (v.same_tenant ∙ e) refl
        (subst (λ id. OwnsId k.tenant_id id db.flags) (sym v.same_id) (owns flag s place e))

  ConfigStep-SameFor :
      (payload : FlagUpdate) (now : Instant) {flag : Flag} {db db' : Database}
      → IsSound db
      → In flag db.flags
      → flag.tenant_id ≡ k.tenant_id
      → ConfigStep services payload k now flag db db'
      → SameFor other db db'
  unfolding with_config_fields add_audit
  ConfigStep-SameFor payload now {db = db} s place e (no_environment n same) =
      subst (SameFor other db) (sym same) (SameFor-refl other db)
  ConfigStep-SameFor payload now {db = db} s place e (no_change environment config n found same) =
      subst (SameFor other db) (sym same) (SameFor-refl other db)
  ConfigStep-SameFor payload now {flag} {db} s place e
        (changed environment config fields n found some_field typed differ fits same) =
      let (config_place, config_id, config_environment) =
        find_config-In flag.id environment db found in
      let keeps = assign_config_all-keeps flag.type config fields typed in
      let new = changed_config config fields now in
      let id_same : new.flag_id ≡ flag.id = keeps.same_flag ∙ config_id in
      let owned =
        subst (λ id. OwnsId k.tenant_id id db.flags) (sym id_same) (owns flag s place e) in
      let owned_configs = sound-OwnsConfigs k.tenant_id other ne db new.flag_id s owned in
      subst (SameFor other db) (sym same) (
        config_write k.tenant_id other ne db new _ _
          (keeps.same_tenant ∙ All-at _ config_place owned_configs (sym keeps.same_flag)) refl owned
          owned_configs)

  seeded-ids :
      (flag : Flag) (seeded : FlagValue) (now : Instant) (es : List Environment)
      → All
          (λ (c : FlagEnvironmentConfig). c.flag_id ≡ flag.id)
          (map (seeded_config flag seeded now) es)
  seeded-ids flag seeded now [] = tt
  seeded-ids flag seeded now (e ∷ es) = (refl, seeded-ids flag seeded now es)

  with_new_flag-SameFor :
      (flag : Flag) (now : Instant) (db : Database)
      → flag.tenant_id ≡ k.tenant_id
      → flag_conflicts flag db ≡ false
      → SameFor other db (with_new_flag flag k now db)
  unfolding with_new_flag add_audit compile
  with_new_flag-SameFor flag now db e free =
      let foreign : (flag.tenant_id == other) ≡ false = ground arith in
      let seeded = seed_value flag.type flag.default_value in
      record {
        flags = select-append _ db.flags (flag ∷ []) (foreign, tt);
        configs =
            select-append _ db.configs (map (seeded_config flag seeded now) environments)
              (foreign, (foreign, (foreign, tt)));
        history = select-append _ db.audit_log _ (foreign, tt);
        compiled = λ environment.
            join-append other environment db.configs flag
              (map (seeded_config flag seeded now) environments) db.flags (λ same. ne (same ∙ e))
              (no_conflict-ids flag db free) (seeded-ids flag seeded now environments);
      }

  with_archived-SameFor :
      (flag : Flag) (now : Instant) (db : Database)
      → IsSound db
      → In flag db.flags
      → flag.tenant_id ≡ k.tenant_id
      → SameFor other db (with_archived k now flag db)
  unfolding with_archived add_audit
  with_archived-SameFor flag now db s place e =
      flag_write k.tenant_id other ne db (archived_flag flag now) _ _ e refl (owns flag s place e)

  pub Effect-SameFor :
      {db : Database} {server : services.redis.Server} {db' : Database}
      {server' : services.redis.Server}
      → Effect services k db server db' server'
      → IsSound db
      → SameFor other db db'
  Effect-SameFor {db} (reads e t) s = subst (SameFor other db) (sym e) (SameFor-refl other db)
  Effect-SameFor {db} (fills environment e t) s =
      subst (SameFor other db) (sym e) (SameFor-refl other db)
  Effect-SameFor {db} (creates flag now owned typed active free e t) s =
      subst (SameFor other db) (sym e) (with_new_flag-SameFor flag now db owned free)
  Effect-SameFor {db} (updates payload flag_key now flag' changes run t) s =
      let steps = update_session-steps services payload k now flag_key db run in
      let (place, owned, key_same) = find_flag-In k.tenant_id flag_key db steps.found in
      let w = write_flag-Written k now steps.flag changes db steps.typed place s in
      let db₁ = (write_flag k now steps.flag changes db).0 in
      SameFor-trans (write_flag-SameFor now steps.flag changes db s place owned) (
        ConfigStep-SameFor payload now w.sound
          (subst (λ (f : Flag). In f db₁.flags) (sym steps.written) w.place)
          (ap (λ (f : Flag). f.tenant_id) steps.written ∙ w.version.same_tenant ∙ owned)
          steps.config_step)
  Effect-SameFor {db} (archives flag_key now flag found active e t) s =
      let (place, owned, key_same) = find_flag-In k.tenant_id flag_key db found in
      subst (SameFor other db) (sym e) (with_archived-SameFor flag now db s place owned)

Step-SameFor :
    (services : Services) {x_api_key : Option String} {w w' : World services.redis} (k : ApiKey)
    (other : Uuid)
    → IsSound w.database
    → authenticate services.platform w.database x_api_key ≡ ok k
    → other ≢ k.tenant_id
    → Step services x_api_key w w'
    → SameFor other w.database w'.database
unfolding compile
Step-SameFor services {w = w} k other s authenticated ne (refused e) =
    subst (λ (v : World services.redis). SameFor other w.database v.database) (sym e)
      (SameFor-refl other w.database)
Step-SameFor services {w = w} k other s authenticated ne (tenant_made admitted tenant key e) =
    subst (λ (v : World services.redis). SameFor other w.database v.database) (sym e)
      (record { flags = refl; configs = refl; history = refl; compiled = λ environment. refl })
Step-SameFor services {w = w} k other s authenticated ne (under k' authenticated' effect) =
    let same : k' ≡ k = cc (authenticated, authenticated') in
    Effect-SameFor services k' other (λ e. ne (e ∙ ap (λ (x : ApiKey). x.tenant_id) same)) effect s

-- On well-formed tables, a request under a key of one tenant leaves every other tenant's flags, configs
-- and history as they are, and what every environment of it compiles to.
pub handle-isolates :
    (services : Services) (x_api_key : Option String) (call : Call) (w : World services.redis)
    (k : ApiKey) (other : Uuid)
    → IsSound w.database
    → authenticate services.platform w.database x_api_key ≡ ok k
    → other ≢ k.tenant_id
    → SameFor other w.database (handle services x_api_key call w).1.database
handle-isolates services x_api_key call w k other s authenticated ne =
    Step-SameFor services k other s authenticated ne (handle-Step services x_api_key call w)
