-- ===== src/Api/Effect.antt =====
-- The ways in which a request changes the database and the cache, as a step relation, and the proof
-- that every request of `handle` makes one of these steps.
use thinking_feature_flag_se.Common.{
  ℕ, ◌≡◌, refl, ◌∙◌, ap, inl, inr, String, Bool, true, false, Option, none, some, List, [], ◌∷◌,
  ◌++◌, arith, Bool-cases, nat_eq,
}
use thinking_feature_flag_se.Values.{Environment}
use thinking_feature_flag_se.Evaluation.{Context, FlagSnapshot}
use thinking_feature_flag_se.Models.{
  Uuid, Instant, Tenant, ApiKey, Flag, Database, FlagChange, find_flag,
}
use thinking_feature_flag_se.Models.Integrity.{IsTyped}
use thinking_feature_flag_se.Schemas.{
  TenantCreate, FlagCreate, FlagUpdate, check_flag_create, check_tenant_create, value_of,
}
use thinking_feature_flag_se.Outcome.{Outcome, ok, raised, >>=-eq-ok}
use thinking_feature_flag_se.Security.Access.{require_admin-operator}
use thinking_feature_flag_se.Services.{Services}
use thinking_feature_flag_se.Cache.{get_flag_set, set_flag_set, invalidate}
use thinking_feature_flag_se.Security.{
  generate_api_key, hash_api_key, require_admin, authenticate, require_tenant,
}
use thinking_feature_flag_se.World.{World, Handler}
use thinking_feature_flag_se.Routers.Tenants.{create_tenant, tenant_conflicts, new_tenant, new_key}
use thinking_feature_flag_se.Routers.Evaluate.{
  assert_tenant_matches, compile, load_on_miss, load_flag_set, respond, after, evaluate_flags,
  evaluate_bulk,
}
use thinking_feature_flag_se.Routers.Flags.Responses.{get_flag_or_404}
use thinking_feature_flag_se.Routers.Flags.Create.{
  new_flag, flag_conflicts, with_new_flag, create_flag,
}
use thinking_feature_flag_se.Routers.Flags.Update.{
  update_session, finish_update, invalidation_scope, update_flag,
}
use thinking_feature_flag_se.Routers.Flags.Update.Steps.{get_flag-found}
use thinking_feature_flag_se.Routers.Flags.Archive.{
  with_archived, archive_found, archive_or_404, archive_flag,
}
use thinking_feature_flag_se.Api.{
  Call, Body, post_tenant, post_flag, get_flags, put_flag, delete_flag, get_history, post_evaluate,
  post_bulk, guarded, with_body, post_tenant_to, post_tenant_when, handle,
}

module _ (services : Services) where
  -- What a request under the key `k` does to the database and to the Redis server.
  pub data Effect (k : ApiKey) (db : Database) (server : services.redis.Server) (db' : Database)
      (server' : services.redis.Server) : Type 0 where
    reads : db' ≡ db → server' ≡ server → Effect k db server db' server'
    fills :
        (environment : Environment)
        → db' ≡ db
        → server'
          ≡ set_flag_set services k.tenant_id environment
              (compile db k.tenant_id environment)
              server
        → Effect k db server db' server'
    creates :
        (flag : Flag) (now : Instant)
        → flag.tenant_id ≡ k.tenant_id
        → IsTyped flag
        → flag.archived_at ≡ none
        → flag_conflicts flag db ≡ false
        → db' ≡ with_new_flag flag k now db
        → server' ≡ invalidate services k.tenant_id none server
        → Effect k db server db' server'
    updates :
        (payload : FlagUpdate) (flag_key : String) (now : Instant) (flag : Flag)
        (flag_changes : List FlagChange)
        → update_session services payload k flag_key now db ≡ ok (db', flag, flag_changes)
        → server'
          ≡ invalidate services k.tenant_id
              (invalidation_scope flag_changes (value_of payload.environment))
              server
        → Effect k db server db' server'
    archives :
        (flag_key : String) (now : Instant) (flag : Flag)
        → find_flag k.tenant_id flag_key db ≡ some flag
        → flag.archived_at ≡ none
        → db' ≡ with_archived k now flag db
        → server' ≡ invalidate services k.tenant_id none server
        → Effect k db server db' server'

  -- A step of the service: a refused request or one of the operator changes no flag; any other
  -- runs under the key of an authenticated row.
  pub data Step (x_api_key : Option String) (w w' : World services.redis) : Type 0 where
    refused : w' ≡ w → Step x_api_key w w'
    tenant_made :
        x_api_key ≡ some services.settings.admin_api_key
        → (tenant : Tenant) (key : ApiKey)
        → w' ≡ record w {
          database = record w.database {
            tenants = w.database.tenants ++ tenant ∷ [];
            api_keys = w.database.api_keys ++ key ∷ [];
          };
        }
        → Step x_api_key w w'
    under :
        (k : ApiKey)
        → authenticate services.platform w.database x_api_key ≡ ok k
        → Effect k w.database w.server w'.database w'.server
        → Step x_api_key w w'

  abbrev pub EffectOn : ApiKey → World services.redis → World services.redis → Type 0
  EffectOn k w w' = Effect k w.database w.server w'.database w'.server

  create_flag-Effect :
      (payload : FlagCreate) (k : ApiKey) (id : Uuid) (now : Instant) (w : World services.redis)
      → check_flag_create payload ≡ true
      → EffectOn k w (create_flag services payload k id now w).1
  unfolding create_flag check_flag_create
  create_flag-Effect payload k id now w valid =
      elim (Bool-cases (flag_conflicts (new_flag payload k.tenant_id id now) w.database)) [
        | inl taken ↦ rw (taken, create_flag) (reads refl refl)
        | inr free ↦
            rw (free, create_flag)
              (creates (new_flag payload k.tenant_id id now) now refl (ground arith) refl free refl
                refl)
      ]

  finish_update-Effect :
      (payload : FlagUpdate) (k : ApiKey) (flag_key : String) (now : Instant)
      (w : World services.redis) (result : Outcome (Database × Flag × List FlagChange))
      → update_session services payload k flag_key now w.database ≡ result
      → EffectOn k w (finish_update services payload k result w).1
  unfolding finish_update
  finish_update-Effect payload k flag_key now w (raised e) run = reads refl refl
  finish_update-Effect payload k flag_key now w (ok (db, flag, changes)) run =
      updates payload flag_key now flag changes run refl

  archive_found-Effect :
      (k : ApiKey) (flag_key : String) (now : Instant) (flag : Flag) (archived_at : Option Instant)
      (w : World services.redis)
      → find_flag k.tenant_id flag_key w.database ≡ some flag
      → flag.archived_at ≡ archived_at
      → EffectOn k w (archive_found services k now flag archived_at w).1
  unfolding archive_found
  archive_found-Effect k flag_key now flag (some t) w found e = reads refl refl
  archive_found-Effect k flag_key now flag none w found e =
      archives flag_key now flag found e refl refl

  archive_or_404-Effect :
      (k : ApiKey) (flag_key : String) (now : Instant) (result : Outcome Flag)
      (w : World services.redis)
      → get_flag_or_404 w.database k.tenant_id flag_key ≡ result
      → EffectOn k w (archive_or_404 services k now result w).1
  unfolding archive_or_404
  archive_or_404-Effect k flag_key now (raised e) w run = reads refl refl
  archive_or_404-Effect k flag_key now (ok flag) w run =
      archive_found-Effect k flag_key now flag flag.archived_at w
        (get_flag-found w.database k.tenant_id flag_key run) refl

  load_on_miss-Effect :
      (k : ApiKey) (environment : Environment) (cached : Option (List FlagSnapshot))
      (w : World services.redis)
      → EffectOn k w (load_on_miss services k.tenant_id environment cached w).1
  unfolding load_on_miss
  load_on_miss-Effect k environment (some cached) w = reads refl refl
  load_on_miss-Effect k environment none w = fills environment refl refl

  respond-Effect :
      (k : ApiKey) (environment : Environment) (user_id : String) (context : Context)
      (flag_keys : Option (List String)) (duration : ℕ) (now : Instant) (w : World services.redis)
      → EffectOn k w
          (respond services k.tenant_id environment user_id context flag_keys duration now w).1
  unfolding respond load_flag_set
  respond-Effect k environment user_id context flag_keys duration now w =
      let (cached, stats) = get_flag_set services k.tenant_id environment w.server w.stats in
      load_on_miss-Effect k environment cached (record w { stats = stats })

  after-Effect :
      {A : Type 0} (k : ApiKey) (test : Outcome (Unit {0})) (next : Handler services.redis A)
      (w : World services.redis)
      → EffectOn k w (next w).1
      → EffectOn k w (after services test next w).1
  unfolding after
  after-Effect k (raised e) next w h = reads refl refl
  after-Effect k (ok u) next w h = h

  guarded-Step :
      {A : Type 0} (x_api_key : Option String) (dependency : Outcome ApiKey) (valid : Bool)
      (body : A → Body) (handler : ApiKey → Handler services.redis A) (w : World services.redis)
      → ((k : ApiKey)
          → dependency ≡ ok k
          → authenticate services.platform w.database x_api_key ≡ ok k)
      → ((k : ApiKey) → valid ≡ true → EffectOn k w (handler k w).1)
      → Step x_api_key w (guarded services dependency valid body handler w).1
  unfolding guarded
  guarded-Step x_api_key (raised e) valid body handler w owned acts = refused refl
  guarded-Step x_api_key (ok k) false body handler w owned acts = refused refl
  guarded-Step x_api_key (ok k) true body handler w owned acts =
      under k (owned k refl) (acts k refl)

  require_tenant-authenticate :
      (x_api_key : Option String) (tenant_id : Uuid) (w : World services.redis) (k : ApiKey)
      → require_tenant services.platform w.database tenant_id x_api_key ≡ ok k
      → authenticate services.platform w.database x_api_key ≡ ok k
  unfolding require_tenant
  require_tenant-authenticate x_api_key tenant_id w k e =
      let (a, authenticated, owned) =
        >>=-eq-ok (authenticate services.platform w.database x_api_key) _ e in
      let same : a ≡ k = ground arith in authenticated ∙ ap ok same

  post_tenant-Step :
      (x_api_key : Option String) (admin : Outcome (Unit {0})) (payload : TenantCreate)
      (tenant_id key_id : Uuid) (token : String) (now : Instant) (w : World services.redis)
      → (admin ≡ ok tt → x_api_key ≡ some services.settings.admin_api_key)
      → Step x_api_key w (post_tenant_when services admin payload tenant_id key_id token now w).1
  unfolding post_tenant_when post_tenant_to with_body create_tenant
  post_tenant-Step x_api_key (raised e) payload tenant_id key_id token now w admits = refused refl
  post_tenant-Step x_api_key (ok u) payload tenant_id key_id token now w admits =
      elim (Bool-cases (check_tenant_create payload)) [
        | inr invalid ↦ rw invalid (refused refl)
        | inl valid ↦
            let key =
              new_key key_id tenant_id (hash_api_key services.platform (generate_api_key token))
                now in
            elim (Bool-cases (tenant_conflicts tenant_id key w.database)) [
              | inl taken ↦ rw (valid, taken, with_body) (refused refl)
              | inr free ↦
                  rw (valid, free, with_body)
                    (tenant_made (admits refl) (new_tenant payload tenant_id now) key refl)
            ]
      ]

  -- Every request makes a step.
  pub handle-Step :
      (x_api_key : Option String) (call : Call) (w : World services.redis)
      → Step x_api_key w (handle services x_api_key call w).1
  unfolding handle update_flag archive_flag evaluate_flags evaluate_bulk
  handle-Step x (post_tenant payload tenant_id key_id token now) w =
      post_tenant-Step x (require_admin services.settings.admin_api_key x) payload tenant_id key_id
        token now w (require_admin-operator services.settings.admin_api_key x)
  handle-Step x (post_flag tenant_id payload id now) w =
      guarded-Step x _ _ _ _ w (require_tenant-authenticate x tenant_id w)
        (λ k valid. create_flag-Effect payload k id now w valid)
  handle-Step x (get_flags tenant_id environment status) w =
      guarded-Step x _ _ _ _ w (require_tenant-authenticate x tenant_id w)
        (λ k valid. reads refl refl)
  handle-Step x (put_flag tenant_id flag_key payload now) w =
      guarded-Step x _ _ _ _ w (require_tenant-authenticate x tenant_id w)
        (λ k valid. finish_update-Effect payload k flag_key now w _ refl)
  handle-Step x (delete_flag tenant_id flag_key now) w =
      guarded-Step x _ _ _ _ w (require_tenant-authenticate x tenant_id w)
        (λ k valid. archive_or_404-Effect k flag_key now _ w refl)
  handle-Step x (get_history tenant_id flag_key limit) w =
      guarded-Step x _ _ _ _ w (require_tenant-authenticate x tenant_id w)
        (λ k valid. reads refl refl)
  handle-Step x (post_evaluate payload duration now) w =
      guarded-Step x _ _ _ _ w (λ k e. e)
        (λ k valid.
          after-Effect k (assert_tenant_matches payload.tenant_id k)
            (respond services k.tenant_id payload.environment payload.user_id payload.context
              payload.flag_keys duration now)
            w
            (respond-Effect k payload.environment payload.user_id payload.context payload.flag_keys
              duration now w))
  handle-Step x (post_bulk payload duration now) w =
      guarded-Step x _ _ _ _ w (λ k e. e)
        (λ k valid.
          after-Effect k (assert_tenant_matches payload.tenant_id k)
            (respond services k.tenant_id payload.environment payload.user_id payload.context none
              duration now)
            w
            (respond-Effect k payload.environment payload.user_id payload.context none duration now
              w))
