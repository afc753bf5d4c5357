-- ===== src/Http/Errors.antt =====
-- What the error counters see of a request (app/metrics.py, behind app/middleware.py).
use thinking_feature_flag_se.Common.{
  ℕ, ◌≡◌, refl, sym, subst, String, Bool, true, false, Option, none, some, nat_eq, string_eq, leb,
  ltb, if◌then◌else◌, arith,
}
use thinking_feature_flag_se.Metrics.{Counter, record_request}
use thinking_feature_flag_se.Outcome.{Outcome, ok, raised}
use thinking_feature_flag_se.Services.{Services}
use thinking_feature_flag_se.World.{World}
use thinking_feature_flag_se.Api.{Call}
use thinking_feature_flag_se.Api.Uncounted.{handle-errors}
use thinking_feature_flag_se.Http.Routed.Statuses.{is_ordinary, api-ordinary}
use thinking_feature_flag_se.Http.{api, Request, Response, Scope, untouched}
use thinking_feature_flag_se.Http.Routed.{routed, endpoint_run}
use thinking_feature_flag_se.Http.RateLimit.{
  judged, map_response, limited, count_request, too_many, with_remaining,
}
use thinking_feature_flag_se.Http.RateLimit.Charged.{charged, limited_by, limited-charged}
use thinking_feature_flag_se.Http.Correlation.{completed, correlated, app}

module _ (services : Services) where
  abbrev errors_of : World services.redis → Counter
  errors_of w = w.metrics.errors

  -- Whether a response is one that counts as an error.
  abbrev is_counted : Outcome Response → Bool
  is_counted (ok response) = leb 500 response.status_code
  is_counted (raised e) = false

  -- An output that neither counted an error nor is one that will be counted.
  abbrev Clean : World services.redis → (Outcome Response × Scope) × World services.redis → Type 0
  Clean w out = (errors_of out.1 ≡ errors_of w) × (is_counted out.0.0 ≡ false)

  ordinary-is_counted :
      (result : Outcome Response) → is_ordinary result ≡ true → is_counted result ≡ false
  ordinary-is_counted (ok response) h = ground arith
  ordinary-is_counted (raised e) h = refl

  routed-Clean :
      (request : Request) (call : Call) (w : World services.redis)
      → request.endpoint ≡ api call
      → Clean w (routed services request w)
  unfolding routed
  routed-Clean request call w e =
      subst (λ ep. Clean w (endpoint_run services ep request w)) (sym e)
        (
          handle-errors services request.x_api_key call w,
          ordinary-is_counted (endpoint_run services (api call) request w).0.0
              (api-ordinary services call request w),
        )

  judged-Clean :
      (count : Option ℕ) (request : Request) (call : Call) (w : World services.redis)
      → request.endpoint ≡ api call
      → Clean w (judged services count (routed services) request w)
  unfolding judged with_remaining too_many
  judged-Clean none request call w e = routed-Clean request call w e
  judged-Clean (some n) request call w e =
      of_out (routed services request w) (routed-Clean request call w e)
    where
      of_out :
          (out : (Outcome Response × Scope) × World services.redis)
          → Clean w out
          → Clean w (
              if ltb services.settings.rate_limit_per_minute n
              then ((ok (too_many services request.later), untouched), w)
              else map_response services (with_remaining services n) out)
      of_out ((ok response, scope), v) h = ground arith
      of_out ((raised x, scope), v) h = ground arith

  limited-Clean :
      (request : Request) (call : Call) (w : World services.redis)
      → request.endpoint ≡ api call
      → Clean w (limited services (routed services) request w)
  unfolding limited_by
  limited-Clean request call w e =
      rw (limited-charged services (routed services) request w)
        (by_charge (charged services request))
    where
      by_charge :
          (charge : Option String)
          → Clean w (limited_by services charge (routed services) request w)
      by_charge none = routed-Clean request call w e
      by_charge (some key) =
          let (count, server) = count_request services key w.server in
          judged-Clean count request call (record w { server = server }) e

  completed-errors :
      (request : Request) (w : World services.redis)
      (out : (Outcome Response × Scope) × World services.redis)
      → Clean w out
      → errors_of (completed request out).1 ≡ errors_of w
  unfolding completed record_request
  completed-errors request w ((ok response, scope), v) h = ground (arith, h.0, h.1)
  completed-errors request w ((raised e, scope), v) h = h.0

  -- A request to an endpoint of the API adds nothing to the error counters, however it ends: an
  -- exception that a handler does not catch leaves the middleware before the request is recorded.
  pub app-errors :
      (request : Request) (call : Call) (w : World services.redis)
      → request.endpoint ≡ api call
      → (app services request w).1.metrics.errors ≡ w.metrics.errors
  unfolding app correlated
  app-errors request call w e =
      completed-errors request w (limited services (routed services) request w)
        (limited-Clean request call w e)
