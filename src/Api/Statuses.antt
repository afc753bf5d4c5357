-- ===== src/Api/Statuses.antt =====
-- The statuses that the handlers of app/routers and the dependencies of app/security.py raise.
pub mod Parts
use thinking_feature_flag_se.Common.{
  ℕ, ◌≡◌, refl, String, Bool, true, false, Option, none, some, List, [], ◌∷◌, nat_eq, string_eq,
  member, arith, ◌&&◌, leb,
}
use thinking_feature_flag_se.Models.{
  ApiKey, Uuid, Instant, Flag, FlagEnvironmentConfig, FlagChange, Database,
}
use thinking_feature_flag_se.Outcome.{
  Outcome, ok, raised, http_exception, invalid_request, unhandled, ◌>>=◌,
}
use thinking_feature_flag_se.Evaluation.{Context, Platform, Evaluation}
use thinking_feature_flag_se.Services.{Services}
use thinking_feature_flag_se.Values.{Environment, FlagValue, FlagType}
use thinking_feature_flag_se.Schemas.{
  check_flag_create, check_flag_update, check_evaluate_request, check_bulk_evaluate_request,
  TenantCreate, FlagUpdate, FlagCreate, value_of,
}
use thinking_feature_flag_se.Security.{authenticate, require_tenant, require_admin}
use thinking_feature_flag_se.World.{World, Handler}
use thinking_feature_flag_se.Routers.Tenants.{create_tenant}
use thinking_feature_flag_se.Routers.Evaluate.{
  response_for, flag_values, dict_from, evaluate_flags, evaluate_bulk, assert_tenant_matches,
  respond, after,
}
use thinking_feature_flag_se.Routers.Flags.Responses.{get_flag_or_404}
use thinking_feature_flag_se.Routers.Flags.Changes.{
  drop_unchanged, flag_differs, requested_flag_changes, requested_config_changes,
}
use thinking_feature_flag_se.Routers.Flags.Create.{create_flag}
use thinking_feature_flag_se.Routers.Flags.Update.{
  write_flag, write_config, update_found_config, update_config, update_session, update_flag,
  finish_update,
}
use thinking_feature_flag_se.Routers.Flags.Archive.{archive_flag, archive_or_404, archive_found}
use thinking_feature_flag_se.Routers.Flags.Read.{list_flags, flag_history}
use thinking_feature_flag_se.Api.{
  Call, Body, post_tenant, post_flag, get_flags, put_flag, delete_flag, get_history, post_evaluate,
  post_bulk, reading, guarded, with_body, post_tenant_to, post_tenant_when, respond_with, handle,
}
use thinking_feature_flag_se.Api.Statuses.Parts.{
  >>=-known, authenticate_known, get_flag_known, is_known, requested_config_known,
  requested_flag_known, require_admin_known, require_tenant_known, respond_with-known,
  response_for_known,
}

module _ (services : Services) where
  abbrev Known : {A : Type 0} → Handler services.redis A → World services.redis → Type 0
  Known handler w = is_known (handler w).0 ≡ true

  update_found_config_known :
      (payload : FlagUpdate) (k : ApiKey) (now : Instant) (flag : Flag) (environment : Environment)
      (found : Option FlagEnvironmentConfig) (db : Database)
      → is_known (update_found_config services payload k now flag environment found db) ≡ true
  unfolding update_found_config write_config
  update_found_config_known payload k now flag environment none db = refl
  update_found_config_known payload k now flag environment (some config) db =
      >>=-known (requested_config_changes payload flag.type) _
        (requested_config_known payload flag.type) (λ changes. ground arith)

  update_config_known :
      (payload : FlagUpdate) (k : ApiKey) (now : Instant) (flag : Flag)
      (environment : Option Environment) (db : Database)
      → is_known (update_config services payload k now flag environment db) ≡ true
  unfolding update_config
  update_config_known payload k now flag none db = refl
  update_config_known payload k now flag (some environment) db =
      update_found_config_known payload k now flag environment _ db

  update_session_known :
      (payload : FlagUpdate) (k : ApiKey) (flag_key : String) (now : Instant) (db : Database)
      → is_known (update_session services payload k flag_key now db) ≡ true
  unfolding update_session
  update_session_known payload k flag_key now db =
      >>=-known (get_flag_or_404 db k.tenant_id flag_key) _ (get_flag_known db k.tenant_id flag_key)
        (λ flag.
          >>=-known (requested_flag_changes payload flag.type) _
            (requested_flag_known payload flag.type)
            (λ changes.
              let fields = drop_unchanged flag_differs flag changes in
              let written = write_flag k now flag fields db in
              >>=-known
                (update_config services payload k now written.1 (value_of payload.environment)
                  written.0)
                (λ (db' : Database). ok (db', written.1, fields))
                (update_config_known payload k now written.1 (value_of payload.environment)
                  written.0)
                (λ db'. refl)))

  finish_update-Known :
      (payload : FlagUpdate) (k : ApiKey) (result : Outcome (Database × Flag × List FlagChange))
      (w : World services.redis)
      → is_known result ≡ true
      → Known (finish_update services payload k result) w
  unfolding finish_update
  finish_update-Known payload k (ok (db, flag, changes)) w h = refl
  finish_update-Known payload k (raised (http_exception status text)) w h = h
  finish_update-Known payload k (raised invalid_request) w h = refl
  finish_update-Known payload k (raised unhandled) w h = refl

  archive_or_404-Known :
      (k : ApiKey) (now : Instant) (result : Outcome Flag) (w : World services.redis)
      → is_known result ≡ true
      → Known (archive_or_404 services k now result) w
  unfolding archive_or_404 archive_found
  archive_or_404-Known k now (ok flag) w h = ground arith
  archive_or_404-Known k now (raised (http_exception status text)) w h = h
  archive_or_404-Known k now (raised invalid_request) w h = refl
  archive_or_404-Known k now (raised unhandled) w h = refl

  after-Known :
      {A : Type 0} (test : Outcome (Unit {0})) (next : Handler services.redis A)
      (w : World services.redis)
      → is_known test ≡ true
      → Known next w
      → Known (after services test next) w
  unfolding after
  after-Known (ok u) next w h rest = rest
  after-Known (raised (http_exception status text)) next w h rest = h
  after-Known (raised invalid_request) next w h rest = refl
  after-Known (raised unhandled) next w h rest = refl

  assert_tenant_known :
      (tenant_id : Uuid) (k : ApiKey) → is_known (assert_tenant_matches tenant_id k) ≡ true
  unfolding assert_tenant_matches
  assert_tenant_known tenant_id k = ground arith

  guarded-Known :
      {A : Type 0} (dependency : Outcome ApiKey) (valid : Bool) (body : A → Body)
      (handler : ApiKey → Handler services.redis A) (w : World services.redis)
      → is_known dependency ≡ true
      → ((k : ApiKey) → Known (handler k) w)
      → Known (guarded services dependency valid body handler) w
  unfolding guarded with_body
  guarded-Known (raised (http_exception status text)) valid body handler w h rest = h
  guarded-Known (raised invalid_request) valid body handler w h rest = refl
  guarded-Known (raised unhandled) valid body handler w h rest = refl
  guarded-Known (ok k) false body handler w h rest = refl
  guarded-Known (ok k) true body handler w h rest = respond_with-known body (handler k w).0 (rest k)

  post_tenant-Known :
      (admin : Outcome (Unit {0})) (payload : TenantCreate) (tenant_id key_id : Uuid)
      (token : String) (now : Instant) (w : World services.redis)
      → is_known admin ≡ true
      → Known (post_tenant_when services admin payload tenant_id key_id token now) w
  unfolding post_tenant_when post_tenant_to with_body create_tenant
  post_tenant-Known (raised (http_exception status text)) payload tenant_id key_id token now w h = h
  post_tenant-Known (raised invalid_request) payload tenant_id key_id token now w h = refl
  post_tenant-Known (raised unhandled) payload tenant_id key_id token now w h = refl
  post_tenant-Known (ok u) payload tenant_id key_id token now w h = ground arith

  create_flag-Known :
      (payload : FlagCreate) (k : ApiKey) (id : Uuid) (now : Instant) (w : World services.redis)
      → Known (create_flag services payload k id now) w
  unfolding create_flag
  create_flag-Known payload k id now w = ground arith

  respond-Known :
      (tenant_id : Uuid) (environment : Environment) (user_id : String) (context : Context)
      (flag_keys : Option (List String)) (duration : ℕ) (now : Instant) (w : World services.redis)
      → Known (respond services tenant_id environment user_id context flag_keys duration now) w
  unfolding respond
  respond-Known tenant_id environment user_id context flag_keys duration now w =
      response_for_known user_id environment _

  history_known :
      (k : ApiKey) (flag_key : String) (limit : ℕ) (db : Database)
      → is_known (flag_history k flag_key limit db) ≡ true
  unfolding flag_history
  history_known k flag_key limit db =
      >>=-known (get_flag_or_404 db k.tenant_id flag_key) _ (get_flag_known db k.tenant_id flag_key)
        (λ flag. refl)

  -- Whatever is requested, an `HTTPException` that comes out has one of the five statuses.
  pub handle_known :
      (x_api_key : Option String) (call : Call) (w : World services.redis)
      → is_known (handle services x_api_key call w).0 ≡ true
  unfolding handle update_flag archive_flag evaluate_flags evaluate_bulk
  handle_known x (post_tenant payload tenant_id key_id token now) w =
      post_tenant-Known (require_admin services.settings.admin_api_key x) payload tenant_id key_id
        token now w (require_admin_known services.settings.admin_api_key x)
  handle_known x (post_flag tenant_id payload id now) w =
      guarded-Known (require_tenant services.platform w.database tenant_id x)
        (check_flag_create payload) Body.flag (λ k. create_flag services payload k id now) w
        (require_tenant_known services.platform w.database x tenant_id)
        (λ k. create_flag-Known payload k id now w)
  handle_known x (get_flags tenant_id environment status) w =
      guarded-Known (require_tenant services.platform w.database tenant_id x) true Body.flags
        (λ k. reading services (λ db. ok (list_flags services k environment status db))) w
        (require_tenant_known services.platform w.database x tenant_id) (λ k. refl)
  handle_known x (put_flag tenant_id flag_key payload now) w =
      guarded-Known (require_tenant services.platform w.database tenant_id x)
        (check_flag_update payload) Body.flag (λ k. update_flag services payload k flag_key now) w
        (require_tenant_known services.platform w.database x tenant_id)
        (λ k.
          finish_update-Known payload k (update_session services payload k flag_key now w.database)
            w (update_session_known payload k flag_key now w.database))
  handle_known x (delete_flag tenant_id flag_key now) w =
      guarded-Known (require_tenant services.platform w.database tenant_id x) true Body.flag
        (λ k. archive_flag services k flag_key now) w
        (require_tenant_known services.platform w.database x tenant_id)
        (λ k.
          archive_or_404-Known k now (get_flag_or_404 w.database k.tenant_id flag_key) w
            (get_flag_known w.database k.tenant_id flag_key))
  handle_known x (get_history tenant_id flag_key limit) w =
      guarded-Known (require_tenant services.platform w.database tenant_id x)
        (leb 1 limit && leb limit 200) Body.history
        (λ k. reading services (flag_history k flag_key limit)) w
        (require_tenant_known services.platform w.database x tenant_id)
        (λ k. history_known k flag_key limit w.database)
  handle_known x (post_evaluate payload duration now) w =
      guarded-Known (authenticate services.platform w.database x) (check_evaluate_request payload)
        Body.evaluated (λ k. evaluate_flags services payload k duration now) w
        (authenticate_known services.platform w.database x)
        (λ k.
          after-Known (assert_tenant_matches payload.tenant_id k)
            (respond services k.tenant_id payload.environment payload.user_id payload.context
              payload.flag_keys duration now)
            w (assert_tenant_known payload.tenant_id k)
            (respond-Known k.tenant_id payload.environment payload.user_id payload.context
              payload.flag_keys duration now w))
  handle_known x (post_bulk payload duration now) w =
      guarded-Known (authenticate services.platform w.database x)
        (check_bulk_evaluate_request payload) Body.evaluated
        (λ k. evaluate_bulk services payload k duration now) w
        (authenticate_known services.platform w.database x)
        (λ k.
          after-Known (assert_tenant_matches payload.tenant_id k)
            (respond services k.tenant_id payload.environment payload.user_id payload.context none
              duration now)
            w (assert_tenant_known payload.tenant_id k)
            (respond-Known k.tenant_id payload.environment payload.user_id payload.context none
              duration now w))
