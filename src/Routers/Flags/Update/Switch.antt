-- ===== src/Routers/Flags/Update/Switch.antt =====
-- `update_flag` with `enabled` false (app/routers/flags.py): what the configs of the environment are
-- afterwards.
use thinking_feature_flag_se.Common.{
  ◌≡◌, ◌⊎◌, inl, inr, refl, sym, ap, subst, ◌∙◌, true, false, not, Option, none, some, List, [],
  ◌∷◌, ◌++◌, arith, nat_eq, All, All-append, All-select, In, here, there, Bool-cases, eq_self,
  if◌then◌else◌, map,
}
use thinking_feature_flag_se.Values.{Environment, environment_eq, FlagType}
use thinking_feature_flag_se.Models.{
  Uuid, Instant, ApiKey, Flag, FlagEnvironmentConfig, Database, ConfigChange, set_enabled,
  set_rollout_percentage, set_targeting_rules, set_value, is_config, find_config, update_config_row,
  add_audit,
}
use thinking_feature_flag_se.Models.Integrity.{
  OnePerPlace, OnePerPlace-eq, find_config-In, All-of_In,
}
use thinking_feature_flag_se.Schemas.{FlagUpdate, sent, TargetingRule, model_dump}
use thinking_feature_flag_se.Outcome.{ok, >>=-eq-ok}
use thinking_feature_flag_se.Services.{Services}
use thinking_feature_flag_se.Routers.Flags.Changes.{
  drop_unchanged, config_differs, same_bool, when_sent, when_typed, assign_config,
  assign_config_all, requested_config_changes,
}
use thinking_feature_flag_se.Routers.Flags.Changes.Typed.{
  ConfigChangeTyped, requested_config_changes-typed, assign_config_all-keeps, All-when_sent,
  All-when_typed,
}
use thinking_feature_flag_se.Routers.Flags.Update.{
  changed_config, with_config_fields, config_fits, write_config, update_found_config,
}

-- A change of `enabled` turns it off.
abbrev TurnsOff : ConfigChange → Type 0
TurnsOff (set_enabled b) = b ≡ false
TurnsOff _ = Unit

assign_config_all-off :
    (c : FlagEnvironmentConfig) (fields : List ConfigChange)
    → All TurnsOff fields
    → (c.enabled ≡ false) ⊎ In (set_enabled false) fields
    → (assign_config_all c fields).enabled ≡ false
unfolding assign_config_all assign_config
assign_config_all-off c [] h (inl off) = off
assign_config_all-off c [] h (inr place) = elim place [ ]
assign_config_all-off c (set_enabled b ∷ fields) h off =
    assign_config_all-off (assign_config c (set_enabled b)) fields h.1 (inl (h.0))
assign_config_all-off c (set_rollout_percentage p ∷ fields) h (inl off) =
    assign_config_all-off (assign_config c (set_rollout_percentage p)) fields h.1 (inl off)
assign_config_all-off c (set_rollout_percentage p ∷ fields) h (inr (there place)) =
    assign_config_all-off (assign_config c (set_rollout_percentage p)) fields h.1 (inr place)
assign_config_all-off c (set_targeting_rules r ∷ fields) h (inl off) =
    assign_config_all-off (assign_config c (set_targeting_rules r)) fields h.1 (inl off)
assign_config_all-off c (set_targeting_rules r ∷ fields) h (inr (there place)) =
    assign_config_all-off (assign_config c (set_targeting_rules r)) fields h.1 (inr place)
assign_config_all-off c (set_value v ∷ fields) h (inl off) =
    assign_config_all-off (assign_config c (set_value v)) fields h.1 (inl off)
assign_config_all-off c (set_value v ∷ fields) h (inr (there place)) =
    assign_config_all-off (assign_config c (set_value v)) fields h.1 (inr place)

rules_change : List TargetingRule → ConfigChange
rules_change rules = set_targeting_rules (map model_dump rules)

ok_values : {A : Type 0} {a b : A} → ok a ≡ ok b → a ≡ b
ok_values e = cc

-- What a body may ask for besides `enabled`.
abbrev others : FlagUpdate → List ConfigChange → List ConfigChange
others payload value =
    when_sent set_rollout_percentage payload.rollout_percentage
    ++ when_sent rules_change payload.targeting_rules
    ++ value

others-TurnsOff :
    (payload : FlagUpdate) (value : List ConfigChange)
    → All TurnsOff value
    → All TurnsOff (others payload value)
unfolding rules_change
others-TurnsOff payload value h =
    let rollout = when_sent set_rollout_percentage payload.rollout_percentage in
    let rules = when_sent rules_change payload.targeting_rules in
    All-append TurnsOff (rollout ++ rules) value
      (All-append TurnsOff rollout rules
        (All-when_sent TurnsOff set_rollout_percentage payload.rollout_percentage (λ a. tt))
        (All-when_sent TurnsOff rules_change payload.targeting_rules (λ a. tt)))
      h

-- A body that sends `enabled` as false asks to turn it off, and not to turn it on.
requested-off :
    (payload : FlagUpdate) (type : FlagType) {changes : List ConfigChange}
    → payload.enabled ≡ sent (some false)
    → requested_config_changes payload type ≡ ok changes
    → All TurnsOff changes × ((more : List ConfigChange) × (changes ≡ set_enabled false ∷ more))
unfolding requested_config_changes rules_change
requested-off payload type {changes} off e =
    let (value, checked, built) = >>=-eq-ok (when_typed set_value "value" payload.value type) _ e in
    let whole : changes ≡ set_enabled false ∷ others payload value =
      sym (ok_values built)
      ∙ ap
          (λ enabled.
            when_sent set_enabled enabled
            ++ when_sent set_rollout_percentage payload.rollout_percentage
            ++ when_sent rules_change payload.targeting_rules
            ++ value)
          off in
    (
      subst (All TurnsOff) (sym whole) (
        refl,
        others-TurnsOff payload value
            (All-when_typed TurnsOff set_value "value" payload.value type (λ v m. tt) checked),
      ),
      (others payload value, whole),
    )

module _ (id : Uuid) (environment : Environment) where
  -- A config of the flag in the environment is off.
  abbrev pub IsOff : FlagEnvironmentConfig → Type 0
  IsOff c = c.flag_id ≡ id → c.environment ≡ environment → c.enabled ≡ false

  update_config_row-IsOff :
      (new : FlagEnvironmentConfig) (configs : List FlagEnvironmentConfig)
      → new.flag_id ≡ id
      → new.environment ≡ environment
      → new.enabled ≡ false
      → All IsOff (update_config_row new configs)
  unfolding update_config_row
  update_config_row-IsOff new [] same_flag same_environment off = tt
  update_config_row-IsOff new (c ∷ configs) same_flag same_environment off = (
    elim (Bool-cases (is_config new.flag_id new.environment c)) [
      | inl hit ↦ rw hit (λ e e'. off)
      | inr missed ↦ rw missed (λ e e'.
          let hit : is_config new.flag_id new.environment c ≡ true =
            rw (sym (e ∙ sym same_flag), sym (e' ∙ sym same_environment))
              (rw (eq_self c.flag_id, eq_self c.environment) refl) in
          absurd (cc (hit, missed)))
    ],
    update_config_row-IsOff new configs same_flag same_environment off,
  )

-- What is left of a request to turn off, once what does not change is dropped.
dropped-off :
    (config : FlagEnvironmentConfig) (requested : List ConfigChange)
    → ((more : List ConfigChange) × (requested ≡ set_enabled false ∷ more))
    → (config.enabled ≡ false)
      ⊎ In (set_enabled false) (drop_unchanged config_differs config requested)
unfolding drop_unchanged config_differs
dropped-off config requested (more, e) = elim (Bool-cases config.enabled) [
  | inr off ↦ inl off
  | inl on ↦
      let kept : drop_unchanged config_differs config requested
          ≡ set_enabled false ∷ drop_unchanged config_differs config more =
        ap (drop_unchanged config_differs config) e
        ∙ ap
            (λ enabled.
              let rest = drop_unchanged config_differs config more in
              if not (same_bool enabled false) then set_enabled false ∷ rest else rest)
            on in
      inr (subst (λ l. In (set_enabled false) l) (sym kept) here)
]

module _ (services : Services) (payload : FlagUpdate) (api_key : ApiKey) (now : Instant)
    (flag : Flag) (environment : Environment) (off : payload.enabled ≡ sent (some false)) where
  abbrev AllOff : Database → Type 0
  AllOff db = All (IsOff flag.id environment) db.configs

  write_config-off :
      (config : FlagEnvironmentConfig) (fields : List ConfigChange) (db : Database) {db' : Database}
      → OnePerPlace db.configs
      → find_config flag.id environment db ≡ some config
      → All (ConfigChangeTyped flag.type) fields
      → (changed_config config fields now).enabled ≡ false
      → write_config services api_key now flag environment config fields db ≡ ok db'
      → AllOff db'
  unfolding write_config with_config_fields add_audit assign_config_all
  write_config-off config [] db {db'} one found typed is_off e =
      let (place, same_flag, same_environment) = find_config-In flag.id environment db found in
      subst AllOff (ok_values e) (
        All-of_In (IsOff flag.id environment) db.configs (λ c m e₁ e₂.
          let same = OnePerPlace-eq one m place (e₁ ∙ sym same_flag, e₂ ∙ sym same_environment) in
          subst (λ (d : FlagEnvironmentConfig). d.enabled ≡ false) (sym same) is_off))
  write_config-off config (change ∷ fields) db {db'} one found typed is_off e =
      let (place, same_flag, same_environment) = find_config-In flag.id environment db found in
      let keeps = assign_config_all-keeps flag.type config (change ∷ fields) typed in
      elim (Bool-cases (config_fits services (changed_config config (change ∷ fields) now))) [
        | inr violated ↦ absurd (ground arith)
        | inl fits ↦
            let stored : with_config_fields api_key now flag environment config (change ∷ fields) db
                ≡ db' =
              ground arith in
            subst AllOff stored (
              update_config_row-IsOff flag.id environment
                (changed_config config (change ∷ fields) now) db.configs
                (keeps.same_flag ∙ same_flag) (keeps.same_environment ∙ same_environment) is_off)
      ]

  -- The second half of an update that turns off an environment leaves no config of the flag on there.
  pub update_found_config-off :
      (found : Option FlagEnvironmentConfig) (db : Database) {db' : Database}
      → OnePerPlace db.configs
      → find_config flag.id environment db ≡ found
      → update_found_config services payload api_key now flag environment found db ≡ ok db'
      → AllOff db'
  unfolding update_found_config
  update_found_config-off none db one found e = absurd (cc)
  update_found_config-off (some config) db one found e =
      let (requested, checked, written) =
        >>=-eq-ok (requested_config_changes payload flag.type) _ e in
      let (turns, asked) = requested-off payload flag.type off checked in
      let fields = drop_unchanged config_differs config requested in
      write_config-off config fields db one found
        (unfold drop_unchanged in
          All-select (ConfigChangeTyped flag.type) (config_differs config) requested
            (requested_config_changes-typed payload flag.type checked))
        (assign_config_all-off config fields
          (unfold drop_unchanged in All-select TurnsOff (config_differs config) requested turns)
          (dropped-off config requested asked))
        written
