-- ===== src/Routers/Flags/Update/Steps.antt =====
-- What a run of `update_flag` (app/routers/flags.py) that reaches the commit has done, step by step.
use thinking_feature_flag_se.Common.{
  ◌≡◌, ◌≢◌, refl, ap, subst, String, true, Option, none, some, List, [], ◌∷◌, arith, All,
  All-select, select-kept, Bool-cases, inl, inr, Option-cases,
}
use thinking_feature_flag_se.Values.{Environment}
use thinking_feature_flag_se.Models.{
  Uuid, Instant, ApiKey, Flag, FlagEnvironmentConfig, Database, FlagChange, ConfigChange, add_audit,
  find_flag, find_config,
}
use thinking_feature_flag_se.Schemas.{FlagUpdate, value_of}
use thinking_feature_flag_se.Outcome.{Outcome, ok, raised, >>=-eq-ok}
use thinking_feature_flag_se.Services.{Services}
use thinking_feature_flag_se.Routers.Flags.Changes.{
  drop_unchanged, flag_differs, config_differs, requested_flag_changes, requested_config_changes,
}
use thinking_feature_flag_se.Routers.Flags.Changes.Typed.{
  FlagChangeTyped, ConfigChangeTyped, requested_flag_changes-typed, requested_config_changes-typed,
}
use thinking_feature_flag_se.Routers.Flags.Responses.{get_flag_or_404}
use thinking_feature_flag_se.Routers.Flags.Update.{
  changed_config, write_flag, write_config, with_config_fields, config_fits, update_config,
  update_found_config, update_session,
}

pub get_flag-found :
    (db : Database) (tenant_id : Uuid) (flag_key : String) {flag : Flag}
    → get_flag_or_404 db tenant_id flag_key ≡ ok flag
    → find_flag tenant_id flag_key db ≡ some flag
unfolding get_flag_or_404
get_flag-found db tenant_id flag_key e = elim (Option-cases (find_flag tenant_id flag_key db)) [
  | inl missing ↦ absurd (ground arith)
  | inr (f, found) ↦ ground arith
]

module _ (services : Services) (payload : FlagUpdate) (api_key : ApiKey) (now : Instant) where
  -- The second half: no environment, a config to which nothing changes, or one that is written.
  pub data ConfigStep (flag : Flag) (db db' : Database) : Type 0 where
    no_environment : value_of payload.environment ≡ none → db' ≡ db → ConfigStep flag db db'
    no_change :
        (environment : Environment) (config : FlagEnvironmentConfig)
        → value_of payload.environment ≡ some environment
        → find_config flag.id environment db ≡ some config
        → db' ≡ db
        → ConfigStep flag db db'
    changed :
        (environment : Environment) (config : FlagEnvironmentConfig) (fields : List ConfigChange)
        → value_of payload.environment ≡ some environment
        → find_config flag.id environment db ≡ some config
        → fields ≢ []
        → All (ConfigChangeTyped flag.type) fields
        → All (λ change. config_differs config change ≡ true) fields
        → config_fits services (changed_config config fields now) ≡ true
        → db' ≡ with_config_fields api_key now flag environment config fields db
        → ConfigStep flag db db'

  -- The second half leaves the flags and the keys alone.
  pub ConfigStep-flags :
      {flag : Flag} {db db' : Database} → ConfigStep flag db db' → db'.flags ≡ db.flags
  unfolding with_config_fields add_audit
  ConfigStep-flags (no_environment n e) = ap (λ (d : Database). d.flags) e
  ConfigStep-flags (no_change environment config n found e) = ap (λ (d : Database). d.flags) e
  ConfigStep-flags (changed environment config fields n found some_field typed differ fits e) =
      ap (λ (d : Database). d.flags) e

  pub ConfigStep-api_keys :
      {flag : Flag} {db db' : Database} → ConfigStep flag db db' → db'.api_keys ≡ db.api_keys
  unfolding with_config_fields add_audit
  ConfigStep-api_keys (no_environment n e) = ap (λ (d : Database). d.api_keys) e
  ConfigStep-api_keys (no_change environment config n found e) = ap (λ (d : Database). d.api_keys) e
  ConfigStep-api_keys (changed environment config fields n found some_field typed differ fits e) =
      ap (λ (d : Database). d.api_keys) e

  pub ConfigStep-tenants :
      {flag : Flag} {db db' : Database} → ConfigStep flag db db' → db'.tenants ≡ db.tenants
  unfolding with_config_fields add_audit
  ConfigStep-tenants (no_environment n e) = ap (λ (d : Database). d.tenants) e
  ConfigStep-tenants (no_change environment config n found e) = ap (λ (d : Database). d.tenants) e
  ConfigStep-tenants (changed environment config fields n found some_field typed differ fits e) =
      ap (λ (d : Database). d.tenants) e

  pub record SessionSteps (flag_key : String) (db db' : Database) (flag' : Flag)
      (flag_changes : List FlagChange) : Type 0 where
    pub flag : Flag
    pub found : find_flag api_key.tenant_id flag_key db ≡ some flag
    pub typed : All (FlagChangeTyped flag.type) flag_changes
    pub differ : All (λ change. flag_differs flag change ≡ true) flag_changes
    pub written : flag' ≡ (write_flag api_key now flag flag_changes db).1
    pub config_step : ConfigStep flag' (write_flag api_key now flag flag_changes db).0 db'

  write_config-step :
      (flag : Flag) (environment : Environment) (config : FlagEnvironmentConfig)
      (fields : List ConfigChange) (db : Database) {db' : Database}
      → value_of payload.environment ≡ some environment
      → find_config flag.id environment db ≡ some config
      → All (ConfigChangeTyped flag.type) fields
      → All (λ change. config_differs config change ≡ true) fields
      → write_config services api_key now flag environment config fields db ≡ ok db'
      → ConfigStep flag db db'
  unfolding write_config
  write_config-step flag environment config [] db sent found typed differ e =
      no_change environment config sent found (ground arith)
  write_config-step flag environment config (change ∷ fields) db sent found typed differ e =
      elim (Bool-cases (config_fits services (changed_config config (change ∷ fields) now))) [
        | inl fits ↦
            changed environment config (change ∷ fields) sent found (λ empty. cc) typed differ fits
              (ground arith)
        | inr violated ↦ absurd (ground arith)
      ]

  update_found_config-step :
      (flag : Flag) (environment : Environment) (found : Option FlagEnvironmentConfig)
      (db : Database) {db' : Database}
      → value_of payload.environment ≡ some environment
      → find_config flag.id environment db ≡ found
      → update_found_config services payload api_key now flag environment found db ≡ ok db'
      → ConfigStep flag db db'
  unfolding update_found_config
  update_found_config-step flag environment none db sent found e = absurd (cc)
  update_found_config-step flag environment (some config) db sent found e =
      let (requested, checked, written) =
        >>=-eq-ok (requested_config_changes payload flag.type) _ e in
      let fields = drop_unchanged config_differs config requested in
      write_config-step flag environment config fields db sent found
        (unfold drop_unchanged in
          All-select (ConfigChangeTyped flag.type) (config_differs config) requested
            (requested_config_changes-typed payload flag.type checked))
        (unfold drop_unchanged in select-kept (config_differs config) requested) written

  pub update_config-step :
      (flag : Flag) (db : Database) {db' : Database} (environment : Option Environment)
      → value_of payload.environment ≡ environment
      → update_config services payload api_key now flag environment db ≡ ok db'
      → ConfigStep flag db db'
  unfolding update_config
  update_config-step flag db none sent e = no_environment sent (ground arith)
  update_config-step flag db (some environment) sent e =
      update_found_config-step flag environment (find_config flag.id environment db) db sent refl e

  -- What the result of a session tells of its steps.
  abbrev StepsOf : String → Database → Outcome (Database × Flag × List FlagChange) → Type 0
  StepsOf flag_key db (ok (db', flag', flag_changes)) =
      SessionSteps flag_key db db' flag' flag_changes
  StepsOf flag_key db (raised e) = Unit

  -- A session that reaches the commit has made these steps.
  pub update_session-steps :
      (flag_key : String) (db : Database) {db' : Database} {flag' : Flag}
      {flag_changes : List FlagChange}
      → update_session services payload api_key flag_key now db ≡ ok (db', flag', flag_changes)
      → SessionSteps flag_key db db' flag' flag_changes
  unfolding update_session drop_unchanged
  update_session-steps flag_key db e =
      let (flag, located, e₁) = >>=-eq-ok (get_flag_or_404 db api_key.tenant_id flag_key) _ e in
      let (requested, checked, e₂) = >>=-eq-ok (requested_flag_changes payload flag.type) _ e₁ in
      let fields = drop_unchanged flag_differs flag requested in
      let written = write_flag api_key now flag fields db in
      let (db', stepped, e₃) =
        >>=-eq-ok
          (update_config services payload api_key now written.1 (value_of payload.environment)
            written.0)
          _ e₂ in
      let steps : SessionSteps flag_key db db' written.1 fields = record {
        flag = flag;
        found = get_flag-found db api_key.tenant_id flag_key located;
        typed =
            All-select (FlagChangeTyped flag.type) (flag_differs flag) requested
              (requested_flag_changes-typed payload flag.type checked);
        differ = select-kept (flag_differs flag) requested;
        written = refl;
        config_step =
            update_config-step written.1 written.0 (value_of payload.environment) refl stepped;
      } in
      subst (StepsOf flag_key db) e₃ steps
