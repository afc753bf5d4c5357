-- ===== src/Api/Operator.antt =====
-- What a request without the operator's key can do to the tenants and the keys (app/security.py,
-- app/routers/tenants.py).
use thinking_feature_flag_se.Common.{
  ◌≡◌, ◌≢◌, ◌<◌, refl, ap, sym, subst, ◌∙◌, String, Option, none, some, List, [], ◌∷◌, All,
  string_eq,
}
use thinking_feature_flag_se.Common.Texts.{codes}
use thinking_feature_flag_se.Models.{Instant, ApiKey, Flag, FlagChange, Database, add_audit}
use thinking_feature_flag_se.Services.{Services}
use thinking_feature_flag_se.World.{World}
use thinking_feature_flag_se.Routers.Flags.Create.{with_new_flag}
use thinking_feature_flag_se.Routers.Flags.Archive.{with_archived}
use thinking_feature_flag_se.Routers.Flags.Update.{write_flag, with_flag_fields}
use thinking_feature_flag_se.Routers.Flags.Update.Steps.{update_session-steps, ConfigStep-tenants}
use thinking_feature_flag_se.Api.{Call, handle}
use thinking_feature_flag_se.Api.Effect.{
  Effect, reads, fills, creates, updates, archives, Step, refused, tenant_made, under, handle-Step,
}
use thinking_feature_flag_se.Api.Repeated.{session_api_keys}

-- The tenants and the keys are the same in both databases.
abbrev pub SameTenants : Database → Database → Type 0
SameTenants db db' = (db'.tenants ≡ db.tenants) × (db'.api_keys ≡ db.api_keys)

SameTenants-eq : {db db' : Database} → db' ≡ db → SameTenants db db'
SameTenants-eq e = (ap (λ (d : Database). d.tenants) e, ap (λ (d : Database). d.api_keys) e)

write_flag-tenants :
    (api_key : ApiKey) (now : Instant) (flag : Flag) (changes : List FlagChange) (db : Database)
    → (write_flag api_key now flag changes db).0.tenants ≡ db.tenants
unfolding write_flag with_flag_fields add_audit
write_flag-tenants api_key now flag [] db = refl
write_flag-tenants api_key now flag (change ∷ changes) db = refl

with_new_flag-SameTenants :
    (flag : Flag) (k : ApiKey) (now : Instant) (db : Database)
    → SameTenants db (with_new_flag flag k now db)
unfolding with_new_flag add_audit
with_new_flag-SameTenants flag k now db = (refl, refl)

with_archived-SameTenants :
    (flag : Flag) (k : ApiKey) (now : Instant) (db : Database)
    → SameTenants db (with_archived k now flag db)
unfolding with_archived add_audit
with_archived-SameTenants flag k now db = (refl, refl)

abbrev pub IsAscii : String → Type 0
IsAscii s = All (λ c. c < 128) (codes s)

-- A header that `secrets.compare_digest` compares with the operator's key, or none.
abbrev pub Comparable : String → Option String → Type 0
Comparable admin none = Unit
Comparable admin (some key) = IsAscii key × IsAscii admin

module _ (services : Services) where
  Effect-SameTenants :
      {k : ApiKey} {db db' : Database} {server server' : services.redis.Server}
      → Effect services k db server db' server'
      → SameTenants db db'
  Effect-SameTenants (reads e s) = SameTenants-eq e
  Effect-SameTenants (fills environment e s) = SameTenants-eq e
  Effect-SameTenants {k} {db} (creates flag now owned typed active free e s) =
      subst (SameTenants db) (sym e) (with_new_flag-SameTenants flag k now db)
  Effect-SameTenants {k} {db} (updates payload flag_key now flag changes run s) =
      let steps = update_session-steps services payload k now flag_key db run in
      (
        ConfigStep-tenants services payload k now steps.config_step
            ∙ write_flag-tenants k now steps.flag changes db,
        session_api_keys services payload flag_key now now k db run,
      )
  Effect-SameTenants {k} {db} (archives flag_key now flag found active e s) =
      subst (SameTenants db) (sym e) (with_archived-SameTenants flag k now db)

  -- No request without the operator's key registers a tenant: whatever it calls, the tenants and the
  -- API keys stay as they are.
  pub handle-SameTenants :
      (x_api_key : Option String) (call : Call) (w : World services.redis)
      → x_api_key ≢ some services.settings.admin_api_key
      → SameTenants w.database (handle services x_api_key call w).1.database
  handle-SameTenants x_api_key call w foreign = of_step (handle-Step services x_api_key call w)
    where
      of_step :
          {w' : World services.redis}
          → Step services x_api_key w w'
          → SameTenants w.database w'.database
      of_step (refused e) = SameTenants-eq (ap (λ (v : World services.redis). v.database) e)
      of_step (tenant_made admitted tenant key e) = absurd (foreign admitted)
      of_step (under k authenticated effect) = Effect-SameTenants effect
