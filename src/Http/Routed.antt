-- ===== src/Http/Routed.antt =====
-- What lies inside the middleware: the endpoint of a request, with FastAPI's exception handlers. An
-- `HTTPException` becomes a response here; any other exception leaves as it is.
pub mod Statuses
use thinking_feature_flag_se.Common.{ℕ, String, Option, none, some, List, []}
use thinking_feature_flag_se.Models.{ApiKey, Database}
use thinking_feature_flag_se.Outcome.{
  Outcome, ok, raised, http_exception, invalid_request, unhandled,
}
use thinking_feature_flag_se.Services.{Services}
use thinking_feature_flag_se.Security.{authenticate}
use thinking_feature_flag_se.World.{World}
use thinking_feature_flag_se.Api.{Call, Body, post_tenant, post_flag, handle}
use thinking_feature_flag_se.Http.{
  Endpoint, api, livez, readyz, get_metrics, Request, Content, body, detail, validation_errors,
  Response, Scope, App,
}
use thinking_feature_flag_se.Http.Root

-- `status_code` of the decorators
abbrev pub success_code : Call → ℕ
success_code (post_tenant payload tenant_id key_id token now) = 201
success_code (post_flag tenant_id payload id now) = 201
success_code _ = 200

abbrev pub plain : ℕ → Content → Response
plain status_code content = record { status_code = status_code; headers = []; content = content }

unfoldable pub respond_to : Call → Outcome Body → Outcome Response
respond_to call (ok result) = ok (plain (success_code call) (body result))
respond_to call (raised (http_exception status text)) = ok (plain status (detail text))
respond_to call (raised invalid_request) = ok (plain 422 validation_errors)
respond_to call (raised unhandled) = raised unhandled

module _ (services : Services) where
  abbrev tenant_of : Outcome ApiKey → Option String
  tenant_of (ok api_key) = some (services.uuid_text api_key.tenant_id)
  tenant_of (raised e) = none

  -- `request.state.tenant_id`, which `authenticate` sets; `require_admin` does not.
  unfoldable pub tenant_label : Call → Option String → Database → Option String
  tenant_label (post_tenant payload tenant_id key_id token now) x_api_key db = none
  tenant_label _ x_api_key db = tenant_of (authenticate services.platform db x_api_key)

  abbrev scope_of : Request → Option String → Scope
  scope_of request tenant_id = record { tenant_id = tenant_id; route = some request.template }

  unfoldable pub endpoint_run : Endpoint → App services.redis
  unfolding tenant_label respond_to
  endpoint_run (api call) request w =
      let (result, w') = handle services request.x_api_key call w in
      (
        (respond_to call result, scope_of request (tenant_label call request.x_api_key w.database)),
        w',
      )
  endpoint_run livez request w = ((ok Root.livez, scope_of request none), w)
  endpoint_run (readyz database ping) request w =
      ((ok (Root.readyz database ping), scope_of request none), w)
  endpoint_run (get_metrics now) request w =
      ((ok (Root.get_metrics services now w.stats w.metrics), scope_of request none), w)

  unfoldable pub routed : App services.redis
  unfolding endpoint_run
  routed request w = endpoint_run request.endpoint request w
