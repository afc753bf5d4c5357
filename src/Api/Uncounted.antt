-- ===== src/Api/Uncounted.antt =====
-- The error counters under the handlers (app/metrics.py, app/routers).
use thinking_feature_flag_se.Common.{
  ℕ, ◌≡◌, refl, String, Bool, true, false, Option, none, some, List, nat_eq, string_eq, leb, arith,
  ◌&&◌,
}
use thinking_feature_flag_se.Evaluation.{Context, FlagSnapshot}
use thinking_feature_flag_se.Values.{Environment}
use thinking_feature_flag_se.Models.{Uuid, Instant, ApiKey, Flag, FlagChange, Database}
use thinking_feature_flag_se.Metrics.{Counter, record_evaluation}
use thinking_feature_flag_se.Outcome.{Outcome, ok, raised}
use thinking_feature_flag_se.Schemas.{
  TenantCreate, FlagCreate, FlagUpdate, check_flag_create, check_flag_update,
  check_evaluate_request, check_bulk_evaluate_request,
}
use thinking_feature_flag_se.Services.{Services}
use thinking_feature_flag_se.Security.{require_admin}
use thinking_feature_flag_se.World.{World, Handler}
use thinking_feature_flag_se.Cache.{get_flag_set}
use thinking_feature_flag_se.Routers.Evaluate.{
  load_on_miss, load_flag_set, respond, after, assert_tenant_matches, evaluate_flags, evaluate_bulk,
}
use thinking_feature_flag_se.Routers.Flags.Responses.{get_flag_or_404}
use thinking_feature_flag_se.Routers.Flags.Create.{create_flag}
use thinking_feature_flag_se.Routers.Flags.Update.{update_session, update_flag, finish_update}
use thinking_feature_flag_se.Routers.Flags.Archive.{archive_flag, archive_or_404, archive_found}
use thinking_feature_flag_se.Routers.Flags.Read.{list_flags, flag_history}
use thinking_feature_flag_se.Api.{
  Call, Body, owner, caller, post_tenant, post_flag, get_flags, put_flag, delete_flag, get_history,
  post_evaluate, post_bulk, reading, guarded, with_body, post_tenant_to, post_tenant_when, handle,
}

module _ (services : Services) where
  abbrev errors_of : World services.redis → Counter
  errors_of w = w.metrics.errors

  abbrev Uncounted : {A : Type 0} → Handler services.redis A → World services.redis → Type 0
  Uncounted handler w = errors_of (handler w).1 ≡ errors_of w

  guarded-errors :
      {A : Type 0} (dependency : Outcome ApiKey) (valid : Bool) (body : A → Body)
      (handler : ApiKey → Handler services.redis A) (w : World services.redis)
      → ((k : ApiKey) → Uncounted (handler k) w)
      → Uncounted (guarded services dependency valid body handler) w
  unfolding guarded with_body
  guarded-errors (raised e) valid body handler w rest = refl
  guarded-errors (ok k) false body handler w rest = refl
  guarded-errors (ok k) true body handler w rest = rest k

  post_tenant-errors :
      (admin : Outcome (Unit {0})) (payload : TenantCreate) (tenant_id key_id : Uuid)
      (token : String) (now : Instant) (w : World services.redis)
      → Uncounted (post_tenant_when services admin payload tenant_id key_id token now) w
  unfolding post_tenant_when post_tenant_to with_body
  post_tenant-errors (raised e) payload tenant_id key_id token now w = refl
  post_tenant-errors (ok u) payload tenant_id key_id token now w = ground arith

  create_flag-errors :
      (payload : FlagCreate) (k : ApiKey) (id : Uuid) (now : Instant) (w : World services.redis)
      → Uncounted (create_flag services payload k id now) w
  unfolding create_flag
  create_flag-errors payload k id now w = ground arith

  finish_update-errors :
      (payload : FlagUpdate) (k : ApiKey) (result : Outcome (Database × Flag × List FlagChange))
      (w : World services.redis)
      → Uncounted (finish_update services payload k result) w
  unfolding finish_update
  finish_update-errors payload k (raised e) w = refl
  finish_update-errors payload k (ok (db, flag, changes)) w = refl

  archive_or_404-errors :
      (k : ApiKey) (now : Instant) (result : Outcome Flag) (w : World services.redis)
      → Uncounted (archive_or_404 services k now result) w
  unfolding archive_or_404 archive_found
  archive_or_404-errors k now (raised e) w = refl
  archive_or_404-errors k now (ok flag) w = ground arith

  load_on_miss-errors :
      (tenant_id : Uuid) (environment : Environment) (cached : Option (List FlagSnapshot))
      (w : World services.redis)
      → errors_of (load_on_miss services tenant_id environment cached w).1 ≡ errors_of w
  unfolding load_on_miss
  load_on_miss-errors tenant_id environment none w = refl
  load_on_miss-errors tenant_id environment (some cached) w = refl

  respond-errors :
      (tenant_id : Uuid) (environment : Environment) (user_id : String) (context : Context)
      (flag_keys : Option (List String)) (duration : ℕ) (now : Instant) (w : World services.redis)
      → Uncounted (respond services tenant_id environment user_id context flag_keys duration now) w
  unfolding respond load_flag_set record_evaluation
  respond-errors tenant_id environment user_id context flag_keys duration now w =
      let (cached, stats) = get_flag_set services tenant_id environment w.server w.stats in
      load_on_miss-errors tenant_id environment cached (record w { stats = stats })

  after-errors :
      {A : Type 0} (test : Outcome (Unit {0})) (next : Handler services.redis A)
      (w : World services.redis)
      → Uncounted next w
      → Uncounted (after services test next) w
  unfolding after
  after-errors (raised e) next w h = refl
  after-errors (ok u) next w h = h

  -- No handler adds to the error counters.
  pub handle-errors :
      (x_api_key : Option String) (call : Call) (w : World services.redis)
      → Uncounted (handle services x_api_key call) w
  unfolding handle update_flag archive_flag evaluate_flags evaluate_bulk
  handle-errors x (post_tenant payload tenant_id key_id token now) w =
      post_tenant-errors (require_admin services.settings.admin_api_key x) payload tenant_id key_id
        token now w
  handle-errors x (post_flag tenant_id payload id now) w =
      guarded-errors (owner services tenant_id x w) (check_flag_create payload) Body.flag
        (λ k. create_flag services payload k id now) w (λ k. create_flag-errors payload k id now w)
  handle-errors x (get_flags tenant_id environment status) w =
      guarded-errors (owner services tenant_id x w) true Body.flags
        (λ k. reading services (λ db. ok (list_flags services k environment status db))) w
        (λ k. refl)
  handle-errors x (put_flag tenant_id flag_key payload now) w =
      guarded-errors (owner services tenant_id x w) (check_flag_update payload) Body.flag
        (λ k. update_flag services payload k flag_key now) w
        (λ k.
          finish_update-errors payload k (update_session services payload k flag_key now w.database)
            w)
  handle-errors x (delete_flag tenant_id flag_key now) w =
      guarded-errors (owner services tenant_id x w) true Body.flag
        (λ k. archive_flag services k flag_key now) w
        (λ k. archive_or_404-errors k now (get_flag_or_404 w.database k.tenant_id flag_key) w)
  handle-errors x (get_history tenant_id flag_key limit) w =
      guarded-errors (owner services tenant_id x w) (leb 1 limit && leb limit 200) Body.history
        (λ k. reading services (flag_history k flag_key limit)) w (λ k. refl)
  handle-errors x (post_evaluate payload duration now) w =
      guarded-errors (caller services x w) (check_evaluate_request payload) Body.evaluated
        (λ k. evaluate_flags services payload k duration now) w
        (λ k.
          after-errors (assert_tenant_matches payload.tenant_id k)
            (respond services k.tenant_id payload.environment payload.user_id payload.context
              payload.flag_keys duration now)
            w
            (respond-errors k.tenant_id payload.environment payload.user_id payload.context
              payload.flag_keys duration now w))
  handle-errors x (post_bulk payload duration now) w =
      guarded-errors (caller services x w) (check_bulk_evaluate_request payload) Body.evaluated
        (λ k. evaluate_bulk services payload k duration now) w
        (λ k.
          after-errors (assert_tenant_matches payload.tenant_id k)
            (respond services k.tenant_id payload.environment payload.user_id payload.context none
              duration now)
            w
            (respond-errors k.tenant_id payload.environment payload.user_id payload.context none
              duration now w))
