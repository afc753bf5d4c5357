-- ===== src/Http/RateLimit/Throttled.antt =====
-- Which responses are a 429: those of the limiter alone (app/middleware.py).
use thinking_feature_flag_se.Common.{
  ℕ, ◌≡◌, refl, Bool, true, false, some, ◌==◌, nat_eq, string_eq, ltb, if◌then◌else◌, arith,
}
use thinking_feature_flag_se.Outcome.{Outcome, ok, raised}
use thinking_feature_flag_se.Services.{Services}
use thinking_feature_flag_se.World.{World}
use thinking_feature_flag_se.Http.{
  Endpoint, api, livez, readyz, get_metrics, Request, Response, Scope, untouched,
}
use thinking_feature_flag_se.Http.Root
use thinking_feature_flag_se.Http.Routed.Statuses.{is_ordinary, api-ordinary}
use thinking_feature_flag_se.Http.Routed.{routed, endpoint_run}
use thinking_feature_flag_se.Http.RateLimit.{judged, map_response, too_many, with_remaining}
use thinking_feature_flag_se.Http.RateLimit.Charged.{}
use thinking_feature_flag_se.Http.Correlation.{completed}

abbrev pub is_throttled : Outcome Response → Bool
is_throttled (ok response) = response.status_code == 429
is_throttled (raised e) = false

ordinary-is_throttled :
    (result : Outcome Response) → is_ordinary result ≡ true → is_throttled result ≡ false
ordinary-is_throttled (ok response) h = ground arith
ordinary-is_throttled (raised e) h = refl

module _ (services : Services) where
  pub routed-throttled :
      (request : Request) (w : World services.redis)
      → is_throttled (routed services request w).0.0 ≡ false
  unfolding routed Root.livez Root.readyz Root.get_metrics
  routed-throttled request w = of_endpoint request.endpoint
    where
      of_endpoint :
          (endpoint : Endpoint)
          → is_throttled (endpoint_run services endpoint request w).0.0 ≡ false
      of_endpoint (api call) =
          ordinary-is_throttled (endpoint_run services (api call) request w).0.0
            (api-ordinary services call request w)
      of_endpoint livez = refl
      of_endpoint (readyz database ping) = ground arith
      of_endpoint (get_metrics at) = refl

  pub completed-throttled :
      (request : Request) (out : (Outcome Response × Scope) × World services.redis)
      → is_throttled (completed request out).0.0 ≡ is_throttled out.0.0
  unfolding completed
  completed-throttled request ((ok response, scope), w) = refl
  completed-throttled request ((raised e, scope), w) = refl

  pub completed-server :
      (request : Request) (out : (Outcome Response × Scope) × World services.redis)
      → (completed request out).1.server ≡ out.1.server
  unfolding completed
  completed-server request ((ok response, scope), w) = refl
  completed-server request ((raised e, scope), w) = refl

  pub judged-throttled :
      (n : ℕ) (request : Request) (w : World services.redis)
      → is_throttled (judged services (some n) (routed services) request w).0.0
        ≡ ltb services.settings.rate_limit_per_minute n
  unfolding judged with_remaining too_many
  judged-throttled n request w = of_out (routed services request w) (routed-throttled request w)
    where
      of_out :
          (out : (Outcome Response × Scope) × World services.redis)
          → is_throttled out.0.0 ≡ false
          → is_throttled
              (if ltb services.settings.rate_limit_per_minute n
                then ((ok (too_many services request.later), untouched), w)
                else map_response services (with_remaining services n) out).0.0
            ≡ ltb services.settings.rate_limit_per_minute n
      of_out ((ok response, scope), v) h = ground arith
      of_out ((raised e, scope), v) h = ground arith
