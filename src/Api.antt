-- ===== src/Api.antt =====
-- The service as a whole: a request, and what it does to the world. Each endpoint runs its
-- dependencies first (app/security.py), then the validators of its body (app/schemas.py), then the
-- handler (app/routers). FastAPI's routing and parsing are not modelled.
pub mod Effect
pub mod Sound
pub mod Trail
pub mod Isolation
pub mod Operator
pub mod Coherence
pub mod Repeated
pub mod Replay
pub mod Retold
pub mod Served
pub mod Statuses
pub mod Uncounted
pub mod Dark
pub mod SwitchedOff
pub mod Unserved
use thinking_feature_flag_se.Common.{
  ℕ, String, Bool, true, ◌&&◌, Option, List, [], ◌∷◌, leb, if◌then◌else◌,
}
use thinking_feature_flag_se.Values.{Environment}
use thinking_feature_flag_se.Models.{Uuid, Instant, ApiKey, FlagAuditLog, Database}
use thinking_feature_flag_se.Schemas.{
  TenantCreate, FlagCreate, FlagUpdate, EvaluateRequest, BulkEvaluateRequest, check_tenant_create,
  check_flag_create, check_flag_update, check_evaluate_request, check_bulk_evaluate_request,
}
use thinking_feature_flag_se.Outcome.{
  Outcome, ok, raised, invalid_request, ◌>>=◌, ◌>>◌, raise_unless,
}
use thinking_feature_flag_se.Services.{Services}
use thinking_feature_flag_se.Security.{require_admin, authenticate, require_tenant}
use thinking_feature_flag_se.World.{World, Handler}
use thinking_feature_flag_se.Routers.Tenants.{TenantCreated, create_tenant}
use thinking_feature_flag_se.Routers.Evaluate.{EvaluateResponse, evaluate_flags, evaluate_bulk}
use thinking_feature_flag_se.Routers.Flags.Responses.{FlagResponse}
use thinking_feature_flag_se.Routers.Flags.Create.{create_flag}
use thinking_feature_flag_se.Routers.Flags.Update.{update_flag}
use thinking_feature_flag_se.Routers.Flags.Archive.{archive_flag}
use thinking_feature_flag_se.Routers.Flags.Read.{StatusFilter, AuditEntry, list_flags, flag_history}

-- What an endpoint is called with. The instant, the new ids and the random token come from outside.
pub data Call : Type 0 where
  post_tenant : TenantCreate → Uuid → Uuid → String → Instant → Call
  post_flag : Uuid → FlagCreate → Uuid → Instant → Call
  get_flags : Uuid → Option Environment → StatusFilter → Call
  put_flag : Uuid → String → FlagUpdate → Instant → Call
  delete_flag : Uuid → String → Instant → Call
  get_history : Uuid → String → ℕ → Call
  post_evaluate : EvaluateRequest → ℕ → Instant → Call
  post_bulk : BulkEvaluateRequest → ℕ → Instant → Call

pub data Body : Type 0 where
  tenant_created : TenantCreated → Body
  flag : FlagResponse → Body
  flags : List FlagResponse → Body
  history : List AuditEntry → Body
  evaluated : EvaluateResponse → Body

abbrev pub respond_with : {A : Type 0} → (A → Body) → Outcome A → Outcome Body
respond_with body (ok a) = ok (body a)
respond_with body (raised e) = raised e

module _ (services : Services) where
  with_body : {A : Type 0} → (A → Body) → Handler services.redis A → Handler services.redis Body
  with_body body handler w = let (result, w') = handler w in (respond_with body result, w')

  -- Runs a handler with the key that a dependency returns, and on a valid body.
  guarded :
      {A : Type 0}
      → Outcome ApiKey
      → Bool
      → (A → Body)
      → (ApiKey → Handler services.redis A)
      → Handler services.redis Body
  unfolding with_body
  guarded (raised e) valid body handler w = (raised e, w)
  guarded (ok api_key) valid body handler w =
      if valid then with_body body (handler api_key) w else (raised invalid_request, w)

  -- A handler that reads the database alone.
  abbrev reading : {A : Type 0} → (Database → Outcome A) → Handler services.redis A
  reading query w = (query w.database, w)

  post_tenant_to :
      TenantCreate → Uuid → Uuid → String → Instant → Handler services.redis TenantCreated
  post_tenant_to payload tenant_id key_id token now w =
      let (result, db) =
        create_tenant services.platform payload tenant_id key_id token now w.database in
      (result, record w { database = db })

  post_tenant_when :
      Outcome (Unit {0})
      → TenantCreate
      → Uuid
      → Uuid
      → String
      → Instant
      → Handler services.redis Body
  unfolding post_tenant_to with_body
  post_tenant_when (raised e) payload tenant_id key_id token now w = (raised e, w)
  post_tenant_when (ok u) payload tenant_id key_id token now w =
      if check_tenant_create payload
      then with_body tenant_created (post_tenant_to payload tenant_id key_id token now) w
      else (raised invalid_request, w)

  -- `Depends(require_tenant)` and `Depends(authenticate)`
  abbrev owner : Uuid → Option String → World services.redis → Outcome ApiKey
  owner tenant_id x_api_key w = require_tenant services.platform w.database tenant_id x_api_key

  abbrev caller : Option String → World services.redis → Outcome ApiKey
  caller x_api_key w = authenticate services.platform w.database x_api_key

  -- A call, under the value of its `X-API-Key` header.
  unfoldable pub handle : Option String → Call → Handler services.redis Body
  unfolding guarded post_tenant_when
  handle x_api_key (post_tenant payload tenant_id key_id token now) w =
      post_tenant_when (require_admin services.settings.admin_api_key x_api_key) payload tenant_id
        key_id token now w
  handle x_api_key (post_flag tenant_id payload id now) w =
      guarded (owner tenant_id x_api_key w) (check_flag_create payload) flag
        (λ api_key. create_flag services payload api_key id now) w
  handle x_api_key (get_flags tenant_id environment status) w =
      guarded (owner tenant_id x_api_key w) true flags
        (λ api_key. reading (λ db. ok (list_flags services api_key environment status db))) w
  handle x_api_key (put_flag tenant_id flag_key payload now) w =
      guarded (owner tenant_id x_api_key w) (check_flag_update payload) flag
        (λ api_key. update_flag services payload api_key flag_key now) w
  handle x_api_key (delete_flag tenant_id flag_key now) w =
      guarded (owner tenant_id x_api_key w) true flag
        (λ api_key. archive_flag services api_key flag_key now) w
  handle x_api_key (get_history tenant_id flag_key limit) w =
      guarded (owner tenant_id x_api_key w) (leb 1 limit && leb limit 200) history
        (λ api_key. reading (flag_history api_key flag_key limit)) w
  handle x_api_key (post_evaluate payload duration now) w =
      guarded (caller x_api_key w) (check_evaluate_request payload) evaluated
        (λ api_key. evaluate_flags services payload api_key duration now) w
  handle x_api_key (post_bulk payload duration now) w =
      guarded (caller x_api_key w) (check_bulk_evaluate_request payload) evaluated
        (λ api_key. evaluate_bulk services payload api_key duration now) w

  -- Requests one after the other, each on the world that the one before it left.
  unfoldable pub serve : List (Option String × Call) → World services.redis → World services.redis
  serve [] w = w
  serve ((x_api_key, call) ∷ requests) w = serve requests (handle x_api_key call w).1
