-- ===== src/Routers/Flags/Update/Repeated.antt =====
-- `update_flag` asked for the same again (app/routers/flags.py): nothing is written.
use thinking_feature_flag_se.Common.{
  ◌≡◌, refl, sym, subst, ◌∙◌, ap, String, Bool, Option, none, some, List, [], ◌∷◌, arith, All,
  All-select, In, Bool-cases, inl, inr, nat_eq, string_eq, select,
}
use thinking_feature_flag_se.Values.{Environment, environment_eq}
use thinking_feature_flag_se.Models.{
  Instant, ApiKey, Flag, FlagEnvironmentConfig, Database, FlagChange, ConfigChange, set_name,
  set_description, set_default_value, set_enabled, set_rollout_percentage, set_targeting_rules,
  set_value, find_config, add_audit,
}
use thinking_feature_flag_se.Models.Integrity.{IsSound, find_flag-In, find_config-In}
use thinking_feature_flag_se.Models.Found.{
  find_flag_unique, find_config_unique, In-update_config_self,
}
use thinking_feature_flag_se.Schemas.{FlagUpdate, value_of}
use thinking_feature_flag_se.Outcome.{Outcome, ok, raised, ◌>>=◌, >>=-eq-ok}
use thinking_feature_flag_se.Services.{Services}
use thinking_feature_flag_se.Routers.Flags.Changes.{
  drop_unchanged, flag_differs, config_differs, assign_flag_all, assign_config_all,
  requested_flag_changes, requested_config_changes,
}
use thinking_feature_flag_se.Routers.Flags.Changes.Typed.{
  FlagChangeTyped, ConfigChangeTyped, requested_flag_changes-typed, requested_config_changes-typed,
  assign_config_all-keeps,
}
use thinking_feature_flag_se.Routers.Flags.Changes.Repeated.{
  requested_flag_changes-settled, requested_config_changes-settled,
}
use thinking_feature_flag_se.Routers.Flags.Responses.{get_flag_or_404}
use thinking_feature_flag_se.Routers.Flags.Update.{
  changed_config, write_flag, write_config, with_config_fields, config_fits, update_config,
  update_found_config, update_session,
}
use thinking_feature_flag_se.Routers.Flags.Update.Steps.{
  get_flag-found, update_config-step, ConfigStep-flags,
}
use thinking_feature_flag_se.Routers.Flags.Update.Sound.{write_flag-Written, ConfigStep-IsSound}

select-same {ℓ} :
    {A : Type ℓ} (p q : A → Bool) (xs : List A) → ((a : A) → p a ≡ q a) → select p xs ≡ select q xs
select-same p q [] same = refl
select-same p q (x ∷ xs) same = rw (same x, select-same p q xs same) refl

-- `updated_at` is no field that a body can ask for.
flag_differs-updated_at :
    (f : Flag) (t : Instant) (change : FlagChange)
    → flag_differs (record f { updated_at = t }) change ≡ flag_differs f change
unfolding flag_differs
flag_differs-updated_at f t (set_name n) = refl
flag_differs-updated_at f t (set_description d) = refl
flag_differs-updated_at f t (set_default_value v) = refl

config_differs-updated_at :
    (c : FlagEnvironmentConfig) (t : Instant) (change : ConfigChange)
    → config_differs (record c { updated_at = t }) change ≡ config_differs c change
unfolding config_differs
config_differs-updated_at c t (set_enabled b) = refl
config_differs-updated_at c t (set_rollout_percentage p) = refl
config_differs-updated_at c t (set_targeting_rules r) = refl
config_differs-updated_at c t (set_value v) = refl

-- What a session keeps of a body: the row that it is about, on which nothing is left to change.
module _ (services : Services) (payload : FlagUpdate) (api_key : ApiKey) (now : Instant) where
  write_flag-settled :
      (flag : Flag) (fields requested : List FlagChange) (db : Database)
      → drop_unchanged flag_differs (assign_flag_all flag fields) requested ≡ []
      → drop_unchanged flag_differs (write_flag api_key now flag fields db).1 requested ≡ []
  unfolding write_flag assign_flag_all drop_unchanged
  write_flag-settled flag [] requested db settled = settled
  write_flag-settled flag (c ∷ fields) requested db settled =
      select-same _ _ requested (flag_differs-updated_at (assign_flag_all flag (c ∷ fields)) now)
      ∙ settled

  -- The config that a session leaves in an environment.
  record Settled (flag : Flag) (environment : Environment) (requested : List ConfigChange)
      (db : Database) : Type 0 where
    pub config : FlagEnvironmentConfig
    pub found : find_config flag.id environment db ≡ some config
    pub settled : drop_unchanged config_differs config requested ≡ []

  write_config-Settled :
      (flag : Flag) (environment : Environment) (config : FlagEnvironmentConfig)
      (fields requested : List ConfigChange) (db : Database) {db' : Database}
      → find_config flag.id environment db ≡ some config
      → All (ConfigChangeTyped flag.type) fields
      → drop_unchanged config_differs (assign_config_all config fields) requested ≡ []
      → IsSound db'
      → write_config services api_key now flag environment config fields db ≡ ok db'
      → Settled flag environment requested db'
  unfolding write_config with_config_fields add_audit assign_config_all drop_unchanged
  write_config-Settled flag environment config [] requested db {db'} found typed settled sound e =
      let same : db ≡ db' = ground arith in
      record {
        config = config;
        found = ap (find_config flag.id environment) (sym same) ∙ found;
        settled = settled;
      }
  write_config-Settled flag environment config (c ∷ fields) requested db {db'} found typed settled
        sound e =
      let changes = c ∷ fields in
      let new = changed_config config changes now in
      let (place, same_flag, same_environment) = find_config-In flag.id environment db found in
      let keeps = assign_config_all-keeps flag.type config changes typed in
      elim (Bool-cases (config_fits services new)) [
        | inr violated ↦ absurd (ground arith)
        | inl fits ↦
            let stored : with_config_fields api_key now flag environment config changes db ≡ db' =
              ground arith in
            let there_ : In new db'.configs =
              subst (λ (d : Database). In new d.configs) stored
                (In-update_config_self new place
                  (sym keeps.same_flag, sym keeps.same_environment)) in
            record {
              config = new;
              found =
                  subst (λ id. find_config id environment db' ≡ some new)
                    (keeps.same_flag ∙ same_flag)
                    (subst (λ env. find_config new.flag_id env db' ≡ some new)
                      (keeps.same_environment ∙ same_environment)
                      (find_config_unique db' sound there_));
              settled =
                  select-same _ _ requested
                    (config_differs-updated_at (assign_config_all config changes) now)
                  ∙ settled;
            }
      ]

  module _ (later : Instant) where
    update_found_config-repeated :
        (flag : Flag) (environment : Environment) (found : Option FlagEnvironmentConfig)
        (db : Database) {db' : Database}
        → IsSound db'
        → find_config flag.id environment db ≡ found
        → update_found_config services payload api_key now flag environment found db ≡ ok db'
        → update_found_config services payload api_key later flag environment
            (find_config flag.id environment db')
            db'
          ≡ ok db'
    unfolding update_found_config
    update_found_config-repeated flag environment none db sound found e = absurd (cc)
    update_found_config-repeated flag environment (some config) db {db'} sound found e =
        let (requested, checked, written) =
          >>=-eq-ok (requested_config_changes payload flag.type) _ e in
        let kept =
          write_config-Settled flag environment config
            (drop_unchanged config_differs config requested) requested db found
            (unfold drop_unchanged in
              All-select (ConfigChangeTyped flag.type) (config_differs config) requested
                (requested_config_changes-typed payload flag.type checked))
            (requested_config_changes-settled payload flag.type config checked) sound written in
        rw (kept.found) (
          rw checked (
            ap
              (λ fields.
                write_config services api_key later flag environment kept.config fields db')
              kept.settled
            ∙ (unfold write_config in refl)))

    update_config-repeated :
        (flag : Flag) (environment : Option Environment) (db : Database) {db' : Database}
        → IsSound db'
        → update_config services payload api_key now flag environment db ≡ ok db'
        → update_config services payload api_key later flag environment db' ≡ ok db'
    unfolding update_config
    update_config-repeated flag none db sound e = refl
    update_config-repeated flag (some environment) db sound e =
        update_found_config-repeated flag environment (find_config flag.id environment db) db sound
          refl e

    -- A session on a flag that is as the body asks for, with its config.
    session-again :
        (flag_key : String) (flag : Flag) (requested : List FlagChange) (db : Database)
        → get_flag_or_404 db api_key.tenant_id flag_key ≡ ok flag
        → requested_flag_changes payload flag.type ≡ ok requested
        → drop_unchanged flag_differs flag requested ≡ []
        → update_config services payload api_key later flag (value_of payload.environment) db
          ≡ ok db
        → update_session services payload api_key flag_key later db ≡ ok (db, flag, [])
    unfolding update_session write_flag
    session-again flag_key flag requested db located checked settled again = rw located (
        rw checked (
          ap
            (λ fields.
              let written = write_flag api_key later flag fields db in
              update_config services payload api_key later written.1 (value_of payload.environment)
                written.0
              >>= λ db'. ok (db', written.1, fields))
            settled
          ∙ rw again refl))

    get_flag_unique :
        (flag_key : String) (db : Database) {f : Flag}
        → IsSound db
        → In f db.flags
        → f.tenant_id ≡ api_key.tenant_id
        → f.key ≡ flag_key
        → get_flag_or_404 db api_key.tenant_id flag_key ≡ ok f
    unfolding get_flag_or_404
    get_flag_unique flag_key db {f} sound place tenant same =
        rw (sym tenant) (rw (sym same) (rw (find_flag_unique db sound place) refl))

    -- What the result of a session tells of the next one.
    abbrev RepeatsOf : String → Outcome (Database × Flag × List FlagChange) → Type 0
    RepeatsOf flag_key (ok (db', flag', changes)) =
        update_session services payload api_key flag_key later db' ≡ ok (db', flag', [])
    RepeatsOf flag_key (raised e) = Unit

    -- A session of the same body on the tables that the first one leaves writes nothing.
    pub update_session-repeated :
        (flag_key : String) (db : Database) {db' : Database} {flag' : Flag}
        {changes : List FlagChange}
        → IsSound db
        → update_session services payload api_key flag_key now db ≡ ok (db', flag', changes)
        → update_session services payload api_key flag_key later db' ≡ ok (db', flag', [])
    unfolding update_session
    update_session-repeated flag_key db {db'} {flag'} {changes} sound e =
        let (flag, located, e₁) = >>=-eq-ok (get_flag_or_404 db api_key.tenant_id flag_key) _ e in
        let (requested, checked, e₂) = >>=-eq-ok (requested_flag_changes payload flag.type) _ e₁ in
        let fields = drop_unchanged flag_differs flag requested in
        let written = write_flag api_key now flag fields db in
        let (db₁, stepped, e₃) =
          >>=-eq-ok
            (update_config services payload api_key now written.1 (value_of payload.environment)
              written.0)
            _ e₂ in
        let (place, tenant, key) =
          find_flag-In api_key.tenant_id flag_key db
            (get_flag-found db api_key.tenant_id flag_key located) in
        let w =
          write_flag-Written api_key now flag fields db
            (unfold drop_unchanged in
              All-select (FlagChangeTyped flag.type) (flag_differs flag) requested
                (requested_flag_changes-typed payload flag.type checked))
            place sound in
        let step =
          update_config-step services payload api_key now written.1 written.0
            (value_of payload.environment) refl stepped in
        let sound₁ = ConfigStep-IsSound services payload api_key now w.place w.sound step in
        let place₁ : In written.1 db₁.flags =
          subst (In written.1) (sym (ConfigStep-flags services payload api_key now step)) w.place in
        subst (RepeatsOf flag_key) e₃ (
          session-again flag_key written.1 requested db₁
            (get_flag_unique flag_key db₁ sound₁ place₁ (w.version.same_tenant ∙ tenant)
              (w.version.same_key ∙ key))
            (ap (requested_flag_changes payload) w.version.same_type ∙ checked)
            (write_flag-settled flag fields requested db
              (requested_flag_changes-settled payload flag checked))
            (update_config-repeated written.1 (value_of payload.environment) written.0 sound₁
              stepped))
