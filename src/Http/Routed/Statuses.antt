-- ===== src/Http/Routed/Statuses.antt =====
-- The statuses that come out of the endpoints of the API (app/routers, app/security.py).
use thinking_feature_flag_se.Common.{◌≡◌, refl, Bool, true, nat_eq, leb, arith}
use thinking_feature_flag_se.Outcome.{
  Outcome, ok, raised, http_exception, invalid_request, unhandled,
}
use thinking_feature_flag_se.Services.{Services}
use thinking_feature_flag_se.World.{World}
use thinking_feature_flag_se.Api.{
  Call, Body, post_tenant, post_flag, get_flags, put_flag, delete_flag, get_history, post_evaluate,
  post_bulk, handle,
}
use thinking_feature_flag_se.Api.Statuses.Parts.{is_known}
use thinking_feature_flag_se.Api.Statuses.{handle_known}
use thinking_feature_flag_se.Http.{api, Request, Response}
use thinking_feature_flag_se.Http.Routed.{success_code, respond_to, endpoint_run}

-- No response, or one below the 429 of the limiter and the errors of the server.
abbrev pub is_ordinary : Outcome Response → Bool
is_ordinary (ok response) = leb response.status_code 422
is_ordinary (raised e) = true

success-ordinary : (call : Call) → leb (success_code call) 422 ≡ true
success-ordinary (post_tenant payload tenant_id key_id token now) = refl
success-ordinary (post_flag tenant_id payload id now) = refl
success-ordinary (get_flags tenant_id environment status) = refl
success-ordinary (put_flag tenant_id flag_key payload now) = refl
success-ordinary (delete_flag tenant_id flag_key now) = refl
success-ordinary (get_history tenant_id flag_key limit) = refl
success-ordinary (post_evaluate payload duration now) = refl
success-ordinary (post_bulk payload duration now) = refl

respond_to-ordinary :
    (call : Call) (result : Outcome Body)
    → is_known result ≡ true
    → is_ordinary (respond_to call result) ≡ true
unfolding respond_to
respond_to-ordinary call (ok result) h = success-ordinary call
respond_to-ordinary call (raised (http_exception status text)) h = ground arith
respond_to-ordinary call (raised invalid_request) h = refl
respond_to-ordinary call (raised unhandled) h = refl

pub api-ordinary :
    (services : Services) (call : Call) (request : Request) (w : World services.redis)
    → is_ordinary (endpoint_run services (api call) request w).0.0 ≡ true
unfolding endpoint_run
api-ordinary services call request w =
    respond_to-ordinary call (handle services request.x_api_key call w).0
      (handle_known services request.x_api_key call w)
