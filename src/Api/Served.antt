-- ===== src/Api/Served.antt =====
-- What POST /evaluate answers (app/routers/evaluate.py over app/cache.py).
use thinking_feature_flag_se.Common.{ℕ, ◌≡◌, ◌≢◌, refl, ap, arith, List, true, false, ◌==◌, nat_eq}
use thinking_feature_flag_se.Evaluation.{FlagSnapshot, evaluate_all}
use thinking_feature_flag_se.Models.{ApiKey, Instant}
use thinking_feature_flag_se.Schemas.{EvaluateRequest}
use thinking_feature_flag_se.Outcome.{Outcome, raised, http_exception}
use thinking_feature_flag_se.Services.{Services, ServiceLaws}
use thinking_feature_flag_se.World.{World}
use thinking_feature_flag_se.Routers.Evaluate.{
  assert_tenant_matches, scope_to, compile, EvaluateResponse, load_flag_set, load_on_miss,
  response_for, evaluate_flags,
}
use thinking_feature_flag_se.Cache.{get_flag_set}
use thinking_feature_flag_se.Cache.Unusable.{Unusable, get_flag_set-Unusable}
use thinking_feature_flag_se.Api.Coherence.{IsCoherent}
use thinking_feature_flag_se.Api.Coherence.Kept.{load_flag_set-current}

module _ (services : Services) (payload : EvaluateRequest) (k : ApiKey) (duration : ℕ)
    (now : Instant) where
  -- The answer that a flag set gives.
  abbrev answer_of : List FlagSnapshot → Outcome EvaluateResponse
  answer_of snapshots = response_for payload.user_id payload.environment (
      evaluate_all services.platform (scope_to payload.flag_keys snapshots) payload.user_id
        payload.context)

  evaluate_flags-of_set :
      (w : World services.redis) (snapshots : List FlagSnapshot)
      → payload.tenant_id ≡ k.tenant_id
      → (load_flag_set services k.tenant_id payload.environment w).0 ≡ snapshots
      → (evaluate_flags services payload k duration now w).0 ≡ answer_of snapshots
  unfolding evaluate_flags assert_tenant_matches
  evaluate_flags-of_set w snapshots own loaded =
      let matched : (payload.tenant_id == k.tenant_id) ≡ true = ground arith in
      rw matched (ap answer_of loaded)

  -- Over a coherent cache, POST /evaluate under the key of the tenant in the body answers what evaluating
  -- the flags that the tables compile to, within the keys of the body, gives.
  pub evaluate_flags-current :
      (laws : ServiceLaws services) (w : World services.redis)
      → IsCoherent services laws w.database w.server
      → payload.tenant_id ≡ k.tenant_id
      → (evaluate_flags services payload k duration now w).0
        ≡ response_for payload.user_id payload.environment (
            evaluate_all services.platform
              (scope_to payload.flag_keys (compile w.database k.tenant_id payload.environment))
              payload.user_id
              payload.context)
  evaluate_flags-current laws w coherent own =
      evaluate_flags-of_set w (compile w.database k.tenant_id payload.environment) own
        (load_flag_set-current services laws w k.tenant_id payload.environment coherent)

  -- While Redis cannot be reached, or holds an entry for the tenant and environment that does not
  -- decode, POST /evaluate under the key of the tenant in the body answers from the tables, as over an
  -- empty cache.
  pub evaluate_flags-degrades :
      (w : World services.redis)
      → Unusable services k.tenant_id payload.environment w.server
      → payload.tenant_id ≡ k.tenant_id
      → (evaluate_flags services payload k duration now w).0
        ≡ response_for payload.user_id payload.environment (
            evaluate_all services.platform
              (scope_to payload.flag_keys (compile w.database k.tenant_id payload.environment))
              payload.user_id
              payload.context)
  unfolding load_flag_set load_on_miss
  evaluate_flags-degrades w unusable own =
      let (cached, stats) =
        get_flag_set services k.tenant_id payload.environment w.server w.stats in
      evaluate_flags-of_set w (compile w.database k.tenant_id payload.environment) own (
        ap
          (λ found.
            (load_on_miss services k.tenant_id payload.environment found
              (record w { stats = stats })).0)
          (get_flag_set-Unusable services k.tenant_id payload.environment w.server w.stats
            unusable))

  -- POST /evaluate with another tenant in the body than that of the key is a 403, and changes nothing.
  pub evaluate_flags-foreign :
      (w : World services.redis)
      → payload.tenant_id ≢ k.tenant_id
      → evaluate_flags services payload k duration now w
        ≡ (raised (http_exception 403 "tenant_id does not match the API key"), w)
  unfolding evaluate_flags assert_tenant_matches
  evaluate_flags-foreign w foreign =
      let missed : (payload.tenant_id == k.tenant_id) ≡ false = ground arith in rw missed refl
