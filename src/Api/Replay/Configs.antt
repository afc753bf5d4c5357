-- ===== src/Api/Replay/Configs.antt =====
-- The audit log read as the history of a config (the records of app/routers/flags.py).
use thinking_feature_flag_se.Common.{
  ℕ, ◌≡◌, refl, sym, ap, String, Bool, true, false, not, Option, none, some, List, [], ◌∷◌, ◌==◌,
  string_eq, if◌then◌else◌,
}
use thinking_feature_flag_se.Values.{
  Environment, environment_eq, FlagType, boolean, string, number, flag_type_value, FlagValue, bool,
}
use thinking_feature_flag_se.Evaluation.{Rule}
use thinking_feature_flag_se.Models.{
  FlagEnvironmentConfig, FlagAuditLog, ConfigChange, AuditValue, Instant, set_enabled,
  set_rollout_percentage, set_targeting_rules, set_value, definition, config_fields,
}
use thinking_feature_flag_se.Routers.Flags.Changes.{assign_config, assign_config_all}
use thinking_feature_flag_se.Routers.Flags.Create.{seed_value}
use thinking_feature_flag_se.Routers.Flags.Update.{changed_config}

-- What the log tells of a config.
pub record Setting : Type 0 where
  pub enabled : Bool
  pub value : FlagValue
  pub rollout_percentage : ℕ
  pub targeting_rules : List Rule

abbrev pub setting_of : FlagEnvironmentConfig → Setting
setting_of c = record {
  enabled = c.enabled;
  value = c.value;
  rollout_percentage = c.rollout_percentage;
  targeting_rules = c.targeting_rules;
}

-- The value that a creation seeds, by the text of the type.
unfoldable pub seed_told : String → FlagValue → FlagValue
seed_told type (bool b) = if type == "boolean" then bool (not b) else bool b
seed_told type v = v

unfoldable tell_setting : Setting → ConfigChange → Setting
tell_setting setting (set_enabled b) = record setting { enabled = b }
tell_setting setting (set_rollout_percentage p) = record setting { rollout_percentage = p }
tell_setting setting (set_targeting_rules rules) = record setting { targeting_rules = rules }
tell_setting setting (set_value v) = record setting { value = v }

unfoldable tell_settings : List ConfigChange → Setting → Setting
unfolding tell_setting
tell_settings [] setting = setting
tell_settings (change ∷ changes) setting = tell_settings changes (tell_setting setting change)

abbrev pub is_in_environment : Environment → Option Environment → Bool
is_in_environment environment none = false
is_in_environment environment (some other) = other == environment

-- The state of the config in an environment after a record.
unfoldable pub tell_config : Environment → FlagAuditLog → Option Setting → Option Setting
unfolding tell_settings seed_told
tell_config environment entry setting =
    tell_value (is_in_environment environment entry.environment) entry.new_value setting
  where
    tell_value : Bool → Option AuditValue → Option Setting → Option Setting
    tell_value here (some (definition key name type default_value)) told = some (record {
      enabled = false;
      value = seed_told type default_value;
      rollout_percentage = 100;
      targeting_rules = [];
    })
    tell_value true (some (config_fields changes)) (some told) = some (tell_settings changes told)
    tell_value _ _ told = told

pub seed_told-value :
    (type : FlagType) (v : FlagValue) → seed_told (flag_type_value type) v ≡ seed_value type v
unfolding seed_told seed_value
seed_told-value boolean (bool b) = refl
seed_told-value string (bool b) = refl
seed_told-value number (bool b) = refl
seed_told-value boolean v = refl
seed_told-value string v = refl
seed_told-value number v = refl

setting_of-assign_config_all :
    (c : FlagEnvironmentConfig) (changes : List ConfigChange)
    → setting_of (assign_config_all c changes) ≡ tell_settings changes (setting_of c)
unfolding assign_config_all assign_config tell_settings
setting_of-assign_config_all c [] = refl
setting_of-assign_config_all c (set_enabled b ∷ changes) =
    setting_of-assign_config_all (assign_config c (set_enabled b)) changes
setting_of-assign_config_all c (set_rollout_percentage p ∷ changes) =
    setting_of-assign_config_all (assign_config c (set_rollout_percentage p)) changes
setting_of-assign_config_all c (set_targeting_rules r ∷ changes) =
    setting_of-assign_config_all (assign_config c (set_targeting_rules r)) changes
setting_of-assign_config_all c (set_value v ∷ changes) =
    setting_of-assign_config_all (assign_config c (set_value v)) changes

-- A record of config fields in the environment, on the state of the row that it changes.
pub tell_config-changed :
    (c : FlagEnvironmentConfig) (changes : List ConfigChange) (now : Instant)
    (environment : Environment) (entry : FlagAuditLog)
    → is_in_environment environment entry.environment ≡ true
    → entry.new_value ≡ some (config_fields changes)
    → tell_config environment entry (some (setting_of c))
      ≡ some (setting_of (changed_config c changes now))
unfolding tell_config
tell_config-changed c changes now environment entry inside told =
    rw (inside, told) (ap some (sym (setting_of-assign_config_all c changes)))

-- A record of config fields in another environment.
pub tell_config_elsewhere :
    (changes : List ConfigChange) (environment : Environment) (entry : FlagAuditLog)
    → is_in_environment environment entry.environment ≡ false
    → entry.new_value ≡ some (config_fields changes)
    → (setting : Option Setting) → tell_config environment entry setting ≡ setting
unfolding tell_config
tell_config_elsewhere changes environment entry outside told setting = rw (outside, told) refl
