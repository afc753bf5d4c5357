-- ===== src/Api/Repeated.antt =====
-- A PUT sent again, through the dependencies and the validator (app/routers/flags.py,
-- app/security.py).
use thinking_feature_flag_se.Common.{
  ◌≡◌, refl, sym, subst, ◌∙◌, String, Bool, true, false, Option, none, some, List, [], ◌∷◌,
}
use thinking_feature_flag_se.Evaluation.{Platform}
use thinking_feature_flag_se.Models.{Uuid, Instant, ApiKey, Flag, FlagChange, Database, add_audit}
use thinking_feature_flag_se.Models.Integrity.{IsSound}
use thinking_feature_flag_se.Outcome.{Outcome, ok, raised}
use thinking_feature_flag_se.Schemas.{FlagUpdate, check_flag_update}
use thinking_feature_flag_se.Security.{authenticate, require_tenant}
use thinking_feature_flag_se.Services.{Services}
use thinking_feature_flag_se.World.{World}
use thinking_feature_flag_se.Routers.Flags.Update.{
  update_session, finish_update, update_flag, write_flag, with_flag_fields,
}
use thinking_feature_flag_se.Routers.Flags.Update.Steps.{update_session-steps, ConfigStep-api_keys}
use thinking_feature_flag_se.Routers.Flags.Update.Repeated.{update_session-repeated}
use thinking_feature_flag_se.Api.{Body, put_flag, guarded, with_body, handle}

require_tenant-api_keys :
    (platform : Platform) (tenant_id : Uuid) (x_api_key : Option String) (db db' : Database)
    → db'.api_keys ≡ db.api_keys
    → require_tenant platform db' tenant_id x_api_key
      ≡ require_tenant platform db tenant_id x_api_key
unfolding require_tenant authenticate
require_tenant-api_keys platform tenant_id none db db' same = refl
require_tenant-api_keys platform tenant_id (some raw) db db' same = rw same refl

write_flag-api_keys :
    (api_key : ApiKey) (now : Instant) (flag : Flag) (changes : List FlagChange) (db : Database)
    → (write_flag api_key now flag changes db).0.api_keys ≡ db.api_keys
unfolding write_flag with_flag_fields add_audit
write_flag-api_keys api_key now flag [] db = refl
write_flag-api_keys api_key now flag (change ∷ changes) db = refl

module _ (services : Services) (payload : FlagUpdate) (flag_key : String)
    (now later : Instant) where
  -- The answer `body` again, from tables that stay as they are.
  record Repeats (body : Body) (w : World services.redis)
      (answer : Outcome Body × World services.redis) : Type 0 where
    pub same_answer : answer.0 ≡ ok body
    pub same_database : answer.1.database ≡ w.database

  abbrev put_as :
      Bool → Outcome ApiKey → Instant → World services.redis → Outcome Body × World services.redis
  put_as valid dependency at =
      guarded services dependency valid Body.flag
        (λ key. update_flag services payload key flag_key at)

  pub session_api_keys :
      (k : ApiKey) (db : Database) {db' : Database} {flag : Flag} {changes : List FlagChange}
      → update_session services payload k flag_key now db ≡ ok (db', flag, changes)
      → db'.api_keys ≡ db.api_keys
  session_api_keys k db {changes = changes} run =
      let steps = update_session-steps services payload k now flag_key db run in
      ConfigStep-api_keys services payload k now steps.config_step
      ∙ write_flag-api_keys k now steps.flag changes db

  finish_update-Repeats :
      (k : ApiKey) (w : World services.redis) {body : Body}
      (result : Outcome (Database × Flag × List FlagChange))
      → IsSound w.database
      → update_session services payload k flag_key now w.database ≡ result
      → (with_body services Body.flag (finish_update services payload k result) w).0 ≡ ok body
      → let w' = (with_body services Body.flag (finish_update services payload k result) w).1 in
        Repeats body w'
          (with_body services Body.flag (update_flag services payload k flag_key later) w')
        × (w'.database.api_keys ≡ w.database.api_keys)
  unfolding finish_update update_flag with_body
  finish_update-Repeats k w (raised e) sound run done = absurd (cc)
  finish_update-Repeats k w (ok (db, flag, changes)) sound run done =
      let again =
        update_session-repeated services payload k now later flag_key w.database sound run in
      (
        record { same_answer = rw again done; same_database = rw again refl },
        session_api_keys k w.database run,
      )

  put_as-Repeats :
      (valid : Bool) (dependency : Outcome ApiKey) (w : World services.redis) {body : Body}
      → IsSound w.database
      → (put_as valid dependency now w).0 ≡ ok body
      → let w' = (put_as valid dependency now w).1 in
        Repeats body w' (put_as valid dependency later w')
        × (w'.database.api_keys ≡ w.database.api_keys)
  unfolding guarded update_flag
  put_as-Repeats valid (raised e) w sound done = absurd (cc)
  put_as-Repeats false (ok k) w sound done = absurd (cc)
  put_as-Repeats true (ok k) w sound done =
      finish_update-Repeats k w (update_session services payload k flag_key now w.database) sound
        refl done

  -- Over well-formed tables, a PUT that has answered with success and is sent again, at any later
  -- time, gives the same answer, and leaves the database as it is: no row is written, no audit record
  -- is added.
  pub put_flag-repeated :
      (x_api_key : Option String) (tenant_id : Uuid) (w : World services.redis) {body : Body}
      → IsSound w.database
      → (handle services x_api_key (put_flag tenant_id flag_key payload now) w).0 ≡ ok body
      → let w' = (handle services x_api_key (put_flag tenant_id flag_key payload now) w).1 in
        let again = handle services x_api_key (put_flag tenant_id flag_key payload later) w' in
        (again.0 ≡ ok body) × (again.1.database ≡ w'.database)
  unfolding handle
  put_flag-repeated x_api_key tenant_id w {body} sound done =
      let valid = check_flag_update payload in
      let dependency = require_tenant services.platform w.database tenant_id x_api_key in
      let w' = (put_as valid dependency now w).1 in
      let (repeats, same_keys) = put_as-Repeats valid dependency w sound done in
      let repeats' =
        subst (λ d. Repeats body w' (put_as valid d later w'))
          (sym (
            require_tenant-api_keys services.platform tenant_id x_api_key w.database w'.database
              same_keys))
          repeats in
      (repeats'.same_answer, repeats'.same_database)
