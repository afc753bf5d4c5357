-- ===== src/Http/Correlation.antt =====
-- `CorrelationMiddleware` (thinking-feature-flag-service/app/middleware.py), and the application with
-- both middlewares, in the order of app/main.py. The line `request_failed` is left out.
use thinking_feature_flag_se.Common.{ℕ, String, Option, none, some, List, [], ◌∷◌, ◌++◌, nat_eq}
use thinking_feature_flag_se.Metrics.{record_request}
use thinking_feature_flag_se.Outcome.{Outcome, ok, raised}
use thinking_feature_flag_se.Services.{Services, Redis}
use thinking_feature_flag_se.Logging.{LogRecord, Loggers, before_slash}
use thinking_feature_flag_se.Logging.Emission.{LogLine, emitted}
use thinking_feature_flag_se.World.{World}
use thinking_feature_flag_se.Http.{Request, non_empty, Response, with_header, Scope, App}
use thinking_feature_flag_se.Http.Routed.{routed}
use thinking_feature_flag_se.Http.RateLimit.{limited}

abbrev pub or_else : {A : Type 0} → Option A → A → A
or_else none default = default
or_else (some a) default = a

-- `request.headers.get("x-request-id") or str(uuid.uuid4())`
unfoldable pub request_id : Request → String
request_id request = or_else (non_empty request.x_request_id) request.new_uuid

-- `_route_template`
abbrev pub route_template : Request → Scope → String
route_template request scope = or_else scope.route request.path

-- What `trace_id_var` is set to.
unfoldable pub trace_id : Request → Option String
unfolding before_slash
trace_id request = elim (non_empty request.x_cloud_trace_context) [
  | none ↦ none
  | some trace ↦ some (before_slash trace)
]

-- A value in the `extra` of `request_completed`; the duration is the rounded time
-- that `perf_counter` measures.
pub data LogValue : Type 0 where
  label : String → LogValue
  status : ℕ → LogValue
  duration : ℕ → LogValue

-- `extra`, where `round3` is `round(…, 3)` of the milliseconds that the request took.
unfoldable pub completed_fields : (ℕ → ℕ) → Request → Scope → ℕ → ℕ → List (String × LogValue)
completed_fields round3 request scope status_code duration_ms =
    ("method", label request.method)
    ∷ ("path", label request.path)
    ∷ ("status_code", status status_code)
    ∷ ("duration_ms", duration (round3 duration_ms))
    ∷ ("tenant_id", label (or_else scope.tenant_id "anonymous"))
    ∷ []

-- `others` are the attributes that the standard library puts on the record, before those of `extra`.
abbrev pub completed_record :
    List (String × LogValue) → (ℕ → ℕ) → Request → Scope → ℕ → ℕ → LogRecord LogValue
completed_record others round3 request scope status_code duration_ms = record {
  levelname = "INFO";
  message = "request_completed";
  name = "app.middleware";
  attributes = others ++ completed_fields round3 request scope status_code duration_ms;
  exception = none;
}

-- The logger of the module, with its ancestor below the root
abbrev pub middleware_loggers : List String
middleware_loggers = "app.middleware" ∷ "app" ∷ []

-- `logger.info("request_completed", …)`: the lines that the handlers write.
unfoldable pub completed_lines :
    Services
    → Loggers
    → List (String × LogValue)
    → Request
    → Scope
    → ℕ
    → ℕ
    → List (LogLine LogValue)
unfolding completed_fields request_id trace_id emitted
completed_lines services loggers others request scope status_code duration_ms =
    emitted loggers middleware_loggers services.settings (some (request_id request))
      (trace_id request)
      (completed_record others services.round3 request scope status_code duration_ms)

-- What follows `call_next`.
unfoldable pub completed :
    {redis : Redis}
    → Request
    → (Outcome Response × Scope) × World redis
    → (Outcome Response × Scope) × World redis
unfolding request_id
completed request ((raised e, scope), w) = ((raised e, scope), w)
completed request ((ok response, scope), w) = (
  (ok (with_header "x-request-id" (request_id request) response), scope),
  record w {
    metrics =
        record_request (or_else scope.tenant_id "anonymous") (route_template request scope)
          response.status_code w.metrics;
  },
)

-- `dispatch`
unfoldable pub correlated : {redis : Redis} → App redis → App redis
unfolding completed
correlated call_next request w = completed request (call_next request w)

-- The middleware that was added last runs outermost.
unfoldable pub app : (services : Services) → App services.redis
app services = correlated (limited services (routed services))

-- Requests one after the other, with their responses.
unfoldable pub run :
    (services : Services)
    → List Request
    → World services.redis
    → List (Outcome Response) × World services.redis
run services [] w = ([], w)
run services (request ∷ requests) w =
    let ((result, scope), w') = app services request w in
    let (results, w'') = run services requests w' in (result ∷ results, w'')
