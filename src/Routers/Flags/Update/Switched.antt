-- ===== src/Routers/Flags/Update/Switched.antt =====
-- A run of `update_flag` that turns a flag off (app/routers/flags.py), up to the commit.
use thinking_feature_flag_se.Common.{
  ◌≡◌, refl, sym, ap, subst, ◌∙◌, String, false, Option, none, some, List, [], ◌∷◌, All, All-at,
  All-select, In,
}
use thinking_feature_flag_se.Values.{Environment}
use thinking_feature_flag_se.Models.{
  Instant, ApiKey, Flag, FlagEnvironmentConfig, Database, FlagChange, find_config, add_audit,
}
use thinking_feature_flag_se.Models.Integrity.{OnePerPlace, IsSound, DistinctKeys-eq, find_flag-In}
use thinking_feature_flag_se.Schemas.{FlagUpdate, sent, value_of}
use thinking_feature_flag_se.Outcome.{Outcome, ok, raised, >>=-eq-ok}
use thinking_feature_flag_se.Services.{Services}
use thinking_feature_flag_se.Routers.Flags.Changes.{
  drop_unchanged, flag_differs, requested_flag_changes,
}
use thinking_feature_flag_se.Routers.Flags.Changes.Typed.{
  FlagChangeTyped, requested_flag_changes-typed,
}
use thinking_feature_flag_se.Routers.Flags.Responses.{get_flag_or_404}
use thinking_feature_flag_se.Routers.Flags.Update.{
  write_flag, with_flag_fields, update_config, update_session,
}
use thinking_feature_flag_se.Routers.Flags.Update.Sound.{write_flag-Written}
use thinking_feature_flag_se.Routers.Flags.Update.Steps.{
  ConfigStep-flags, get_flag-found, update_config-step,
}
use thinking_feature_flag_se.Routers.Flags.Update.Switch.{IsOff, update_found_config-off}

write_flag-configs :
    (k : ApiKey) (now : Instant) (flag : Flag) (fields : List FlagChange) (db : Database)
    → (write_flag k now flag fields db).0.configs ≡ db.configs
unfolding write_flag with_flag_fields add_audit
write_flag-configs k now flag [] db = refl
write_flag-configs k now flag (change ∷ fields) db = refl

module _ (services : Services) (payload : FlagUpdate) (k : ApiKey) (now : Instant)
    (environment : Environment) (given : value_of payload.environment ≡ some environment)
    (off : payload.enabled ≡ sent (some false)) where
  update_config-IsOff :
      (flag : Flag) (sent_to : Option Environment) (db : Database) {db' : Database}
      → sent_to ≡ some environment
      → OnePerPlace db.configs
      → update_config services payload k now flag sent_to db ≡ ok db'
      → All (IsOff flag.id environment) db'.configs
  unfolding update_config
  update_config-IsOff flag none db e one run = cc
  update_config-IsOff flag (some sent_environment) db {db'} e one run =
      let same : sent_environment ≡ environment = cc in
      subst (λ env. All (IsOff flag.id env) db'.configs) same
        (update_found_config-off services payload k now flag sent_environment off
          (find_config flag.id sent_environment db) db one refl run)

  -- No config in the environment is on, of the tenant's flag with the key.
  abbrev pub KeyOff : String → Database → Type 0
  KeyOff flag_key db =
      (f : Flag) (c : FlagEnvironmentConfig)
      → In f db.flags
      → In c db.configs
      → f.tenant_id ≡ k.tenant_id
      → f.key ≡ flag_key
      → c.flag_id ≡ f.id
      → c.environment ≡ environment
      → c.enabled ≡ false

  abbrev KeyOffIn : String → Outcome (Database × Flag × List FlagChange) → Type 0
  KeyOffIn flag_key (ok (db, flag, changes)) = KeyOff flag_key db
  KeyOffIn flag_key (raised e) = Unit

  pub update_session-off :
      (flag_key : String) (db : Database) {db' : Database} {flag' : Flag}
      {changes : List FlagChange}
      → IsSound db
      → OnePerPlace db.configs
      → update_session services payload k flag_key now db ≡ ok (db', flag', changes)
      → KeyOff flag_key db'
  unfolding update_session
  update_session-off flag_key db sound one e =
      let (flag, located, e₁) = >>=-eq-ok (get_flag_or_404 db k.tenant_id flag_key) _ e in
      let (requested, checked, e₂) = >>=-eq-ok (requested_flag_changes payload flag.type) _ e₁ in
      let fields = drop_unchanged flag_differs flag requested in
      let written = write_flag k now flag fields db in
      let (db', stepped, e₃) =
        >>=-eq-ok
          (update_config services payload k now written.1 (value_of payload.environment) written.0)
          _ e₂ in
      let (place, owned, key_same) =
        find_flag-In k.tenant_id flag_key db (get_flag-found db k.tenant_id flag_key located) in
      let w =
        write_flag-Written k now flag fields db
          (unfold drop_unchanged in
            All-select (FlagChangeTyped flag.type) (flag_differs flag) requested
              (requested_flag_changes-typed payload flag.type checked))
          place sound in
      let flags_same = ConfigStep-flags services payload k now (
        update_config-step services payload k now written.1 written.0 (value_of payload.environment)
          refl stepped) in
      let all_off =
        update_config-IsOff written.1 (value_of payload.environment) written.0 given
          (subst OnePerPlace (sym (write_flag-configs k now flag fields db)) one) stepped in
      let key_off : KeyOff flag_key db' = λ f c f_place c_place tenant key of_flag at.
        let same =
          DistinctKeys-eq w.sound.distinct_keys (subst (λ l. In f l) flags_same f_place) w.place (
            tenant ∙ sym owned ∙ sym w.version.same_tenant,
            key ∙ sym key_same ∙ sym w.version.same_key,
          ) in
        All-at (IsOff written.1.id environment) c_place all_off
          (of_flag ∙ ap (λ (x : Flag). x.id) same) at in
      subst (KeyOffIn flag_key) e₃ key_off
