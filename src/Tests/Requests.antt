-- ===== src/Tests/Requests.antt =====
-- The theorems about requests through the middleware at concrete inputs.
use thinking_feature_flag_se.Common.{◌/◌}
use thinking_feature_flag_se.Security.{hash_api_key}
use thinking_feature_flag_se.Common.Texts.{codes}
use thinking_feature_flag_se.Common.{take}
use thinking_feature_flag_se.Common.{
  ◌-◌, ◌≤◌, ◌≡◌, ◌≢◌, ◌↔◌, inl, refl, String, Option, none, some, List, [], ◌∷◌, string_eq, nat_eq,
}
use thinking_feature_flag_se.Values.{production}
use thinking_feature_flag_se.Metrics.{no_metrics}
use thinking_feature_flag_se.Outcome.{ok}
use thinking_feature_flag_se.Schemas.{EvaluateRequest}
use thinking_feature_flag_se.Services.{Redis, failed, Services}
use thinking_feature_flag_se.World.{World}
use thinking_feature_flag_se.Routers.Evaluate.{compile, response_for, evaluate_flags}
use thinking_feature_flag_se.Evaluation.{evaluate_all}
use thinking_feature_flag_se.Cache.Unusable.{Unusable, unreachable}
use thinking_feature_flag_se.Api.Served.{evaluate_flags-degrades}
use thinking_feature_flag_se.Api.{post_evaluate}
use thinking_feature_flag_se.Api.Coherence.{IsCoherent}
use thinking_feature_flag_se.Logging.{Loggers, plain_text}
use thinking_feature_flag_se.Logging.Emission.{plain, formatted}
use thinking_feature_flag_se.Http.{api, readyz, Request, Response, with_header}
use thinking_feature_flag_se.Http.Root
use thinking_feature_flag_se.Http.Routed.{routed}
use thinking_feature_flag_se.Http.RateLimit.{window_of, limit_key, count_request, limited}
use thinking_feature_flag_se.Http.RateLimit.Charged.{charged}
use thinking_feature_flag_se.Http.RateLimit.Quota.{requested, throttled, run-throttled}
use thinking_feature_flag_se.Http.RateLimit.Windows.{limit_key_iff, retry_after-next}
use thinking_feature_flag_se.Http.RateLimit.Open.{limited-open}
use thinking_feature_flag_se.Http.Correlation.{status, request_id, app, run}
use thinking_feature_flag_se.Http.Errors.{app-errors}
use thinking_feature_flag_se.Http.Invariants.{run-IsCoherent}
use thinking_feature_flag_se.Http.Lines.{bare_logger}
use thinking_feature_flag_se.Http.Responses.{readyz-app}
use thinking_feature_flag_se.Tests.Redis.{no_data, redis, counter_laws, counter_answers}
use thinking_feature_flag_se.Tests.Setup.{
  services, platform, settings, laws, cold, alice, db, db-IsSound, world,
}

abbrev question : EvaluateRequest
question = record {
  tenant_id = 1;
  environment = production;
  user_id = "u1";
  context = [];
  flag_keys = none;
}

abbrev asked : Request
asked = record {
  method = "POST";
  path = "/api/v1/evaluate";
  template = "/api/v1/evaluate";
  endpoint = api (post_evaluate question 3 8);
  x_api_key = some "ffs_a";
  x_request_id = none;
  x_cloud_trace_context = none;
  new_uuid = "83fc5c19";
  now = 59000000;
  later = 59000004;
}

abbrev probed : Request
probed = record asked {
  path = "/readyz";
  template = "/readyz";
  endpoint = readyz none (some "timeout");
  x_request_id = some "probe-1";
}

-- A quota of two requests in a minute.
abbrev strict : Services
strict = record services { settings = record settings { rate_limit_per_minute = 2 } }

abbrev asked_thrice : List Request
asked_thrice = asked ∷ probed ∷ asked ∷ asked ∷ []

run-throttled_example :
    throttled strict counter_laws "ffs_a" 59000000 asked_thrice (run strict asked_thrice world).0
    ≡ requested strict counter_laws "ffs_a" 59000000 asked_thrice - 2
unfolding counter_laws
run-throttled_example =
    run-throttled strict counter_laws "ffs_a" 59000000 counter_answers asked_thrice world

app-errors_example : (app services asked world).1.metrics.errors ≡ []
app-errors_example = app-errors services asked (post_evaluate question 3 8) world refl

run-IsCoherent_example :
    IsCoherent services laws
      (run services asked_thrice world).1.database
      (run services asked_thrice world).1.server
run-IsCoherent_example =
    run-IsCoherent services laws asked_thrice world db-IsSound refl (λ server ks. refl) cold

-- A Redis whose GET and INCR raise.
abbrev down : Redis
down = record redis { get = λ s key. failed; incr = λ s key. (failed, s) }

abbrev without_redis : Services
without_redis = record {
  settings = settings;
  platform = services.platform;
  redis = down;
  dumps = services.dumps;
  loads = services.loads;
  uuid_text = services.uuid_text;
  column_size = services.column_size;
  collates = services.collates;
  rank = services.rank;
  round3 = services.round3;
}

abbrev world_down : World down
world_down = record {
  database = db;
  server = no_data;
  stats = record { hits = 0; misses = 0 };
  metrics = no_metrics;
}

abbrev ask_key : String
ask_key = limit_key without_redis "ffs_a" 59000000

asked-charged : charged without_redis asked ≡ some ask_key
unfolding charged
asked-charged = refl

limited-open_example :
    limited without_redis (routed without_redis) asked world_down
    ≡ routed without_redis asked
        (record world_down { server = (count_request without_redis ask_key no_data).1 })
limited-open_example =
    limited-open without_redis (routed without_redis) asked world_down ask_key asked-charged
      (inl refl)

limit_key_iff_example :
    (limit_key services "ffs_a" 1000000 ≡ limit_key services "ffs_b" 59000000) ↔ (
      (take 16 (codes (hash_api_key services.platform "ffs_a"))
        ≡ take 16 (codes (hash_api_key services.platform "ffs_b")))
      × (1000000 / 60000000 ≡ 59000000 / 60000000))
limit_key_iff_example = limit_key_iff services "ffs_a" "ffs_b" 1000000 59000000

retry_after-next_example :
    (1 ≤ 1)
    × (1 ≤ 60)
    × (window_of 60500000 ≡ 1)
    × (limit_key services "ffs_a" 60500000 ≢ limit_key services "ffs_a" 59500000)
retry_after-next_example = retry_after-next services "ffs_a" 59500000

readyz-app_example :
    let ((result, scope), w') = app services probed world in
    (result
      ≡ ok (with_header "x-request-id" (request_id probed) (Root.readyz none (some "timeout"))))
    × (w'.database ≡ db)
    × (w'.server ≡ no_data)
    × (((Root.readyz none (some "timeout")).status_code ≡ 200)
        ↔ (◌≡◌ {A = Option String} none none))
readyz-app_example = readyz-app services probed world none (some "timeout") refl refl

abbrev ready : Response
ready = with_header "x-request-id" "probe-1" (Root.readyz none (some "timeout"))

probe_answered : (app services probed world).0.0 ≡ ok ready
unfolding request_id
probe_answered = readyz-app_example.0

abbrev fresh : Loggers
fresh = record {
  root_handlers = plain_text ∷ [];
  root_level = "WARNING";
  named = λ name. bare_logger;
}

unreachable_world : Unusable without_redis 1 production no_data
unreachable_world = unreachable refl

evaluate_flags-degrades_example :
    (evaluate_flags without_redis question alice 3 10 world_down).0
    ≡ response_for "u1" production (evaluate_all platform (compile db 1 production) "u1" [])
evaluate_flags-degrades_example =
    evaluate_flags-degrades without_redis question alice 3 10 world_down unreachable_world refl

local_line :
    formatted plain_text settings none none (record {
      levelname = "INFO";
      message = "request_completed";
      name = "app.middleware";
      attributes = ("lineno", status 12) ∷ [];
      exception = none;
    })
    ≡ plain "INFO     app.middleware: request_completed"
unfolding formatted
local_line = refl
