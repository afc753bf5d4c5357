-- ===== src/Http.antt =====
-- Requests and responses as the middleware and the root endpoints of
-- thinking-feature-flag-service/app see them. FastAPI's routing is not modelled: a request comes with
-- the endpoint that its path leads to, and the pattern of that route.
pub mod Root
pub mod Routed
pub mod RateLimit
pub mod Correlation
pub mod Responses
pub mod Lines
pub mod Errors
pub mod Invariants
use thinking_feature_flag_se.Common.{
  ℕ, String, Option, none, some, List, [], ◌∷◌, ◌==◌, string_eq, if◌then◌else◌,
}
use thinking_feature_flag_se.Models.{Instant}
use thinking_feature_flag_se.Metrics.{Snapshot}
use thinking_feature_flag_se.Outcome.{Outcome}
use thinking_feature_flag_se.Services.{Redis}
use thinking_feature_flag_se.World.{World}
use thinking_feature_flag_se.Api.{Call, Body}

-- How a probe of a dependency ends: `some` is the text of what it raised.
abbrev pub Probe : Type 0
Probe = Option String

pub data Endpoint : Type 0 where
  api : Call → Endpoint
  livez : Endpoint
  -- the probes of Postgres and of Redis
  readyz : Probe → Probe → Endpoint
  get_metrics : Instant → Endpoint

-- `path` is the resolved path and `template` the pattern of the route. The uuid that may be minted and
-- the two readings of the clock come with the request.
pub record Request : Type 0 where
  pub method : String
  pub path : String
  pub template : String
  pub endpoint : Endpoint
  pub x_api_key : Option String
  pub x_request_id : Option String
  pub x_cloud_trace_context : Option String
  pub new_uuid : String
  pub now : Instant
  pub later : Instant

-- `if not text` holds of `None` and of the empty text.
abbrev pub non_empty : Option String → Option String
non_empty none = none
non_empty (some text) = if text == "" then none else some text

pub data Content : Type 0 where
  body : Body → Content
  detail : String → Content
  -- the errors of a `RequestValidationError`
  validation_errors : Content
  status_ok : Content
  readiness : String → List (String × String) → Content
  metrics : Snapshot → Content

abbrev pub Headers : Type 0
Headers = List (String × String)

pub record Response : Type 0 where
  pub status_code : ℕ
  pub headers : Headers
  pub content : Content

-- `headers[name] = value`
unfoldable pub set_header : String → String → Headers → Headers
set_header name value [] = (name, value) ∷ []
set_header name value ((n, v) ∷ headers) =
    if n == name then (name, value) ∷ headers else (n, v) ∷ set_header name value headers

-- `headers.get(name)`
unfoldable pub get_header : String → Headers → Option String
get_header name [] = none
get_header name ((n, v) ∷ headers) = if n == name then some v else get_header name headers

abbrev pub with_header : String → String → Response → Response
with_header name value response = record response {
  headers = set_header name value response.headers;
}

-- What a request carries out to the middleware around it: `request.state.tenant_id` and
-- `request.scope["route"]`.
pub record Scope : Type 0 where
  pub tenant_id : Option String
  pub route : Option String

abbrev pub untouched : Scope
untouched = record { tenant_id = none; route = none }

-- An ASGI application: an exception that leaves it is `raised`.
abbrev pub App : Redis → Type 0
App redis = Request → World redis → (Outcome Response × Scope) × World redis
