-- ===== src/Routers/Evaluate.antt =====
-- The evaluation endpoints (thinking-feature-flag-service/app/routers/evaluate.py). Two times come
-- with a request: the wall clock and the duration that `perf_counter` measures. The query of
-- `_load_flag_set` has no ORDER BY; its rows are taken in the tables' order.
pub mod Compiled
pub mod Served
pub mod Typed
use thinking_feature_flag_se.Common.{
  ℕ, String, Bool, true, false, not, ◌&&◌, Option, none, some, List, [], ◌∷◌, ◌++◌, map, ◌==◌,
  nat_eq, string_eq, if◌then◌else◌, member, select, length,
}
use thinking_feature_flag_se.Values.{Environment, flag_type_value, FlagValue}
use thinking_feature_flag_se.Evaluation.{Context, FlagSnapshot, Evaluation, evaluate_all}
use thinking_feature_flag_se.Models.{
  Uuid, Instant, ApiKey, Flag, FlagEnvironmentConfig, Database, is_config,
}
use thinking_feature_flag_se.Schemas.{
  EvaluateRequest, BulkEvaluateRequest, check_evaluate_request, check_bulk_evaluate_request,
}
use thinking_feature_flag_se.Outcome.{
  Outcome, ok, raised, http_exception, invalid_request, unhandled, ◌>>=◌, ◌>>◌, raise_unless,
}
use thinking_feature_flag_se.Services.{Services}
use thinking_feature_flag_se.Cache.{get_flag_set, set_flag_set}
use thinking_feature_flag_se.Metrics.{record_evaluation}
use thinking_feature_flag_se.Security.{authenticate}
use thinking_feature_flag_se.World.{World, Handler}

unfoldable pub snapshot_of : Flag → FlagEnvironmentConfig → FlagSnapshot
snapshot_of flag config = record {
  key = flag.key;
  type = flag_type_value flag.type;
  default_value = flag.default_value;
  enabled = config.enabled;
  value = config.value;
  rollout_percentage = config.rollout_percentage;
  targeting_rules = config.targeting_rules;
  is_archived = false;
}

-- `archived_at.is_(None)`
abbrev pub is_active : Flag → Bool
is_active f = elim f.archived_at [ none ↦ true | some _ ↦ false ]

-- The rows that the join gives for one flag.
abbrev pub joined : Environment → List FlagEnvironmentConfig → Flag → List FlagSnapshot
joined environment configs flag =
    map (snapshot_of flag) (select (is_config flag.id environment) configs)

unfoldable pub join :
    Uuid → Environment → List FlagEnvironmentConfig → List Flag → List FlagSnapshot
unfolding snapshot_of
join tenant_id environment configs [] = []
join tenant_id environment configs (flag ∷ flags) =
    if flag.tenant_id == tenant_id && is_active flag
    then joined environment configs flag ++ join tenant_id environment configs flags
    else join tenant_id environment configs flags

-- The query of `_load_flag_set`, and the comprehension over its rows.
unfoldable pub compile : Database → Uuid → Environment → List FlagSnapshot
unfolding join
compile db tenant_id environment = join tenant_id environment db.configs db.flags

-- `{r.key: r.value for r in results}`
insert :
    String → Option FlagValue → List (String × Option FlagValue) → List (String × Option FlagValue)
insert key value [] = (key, value) ∷ []
insert key value ((k, v) ∷ items) =
    if k == key then (k, value) ∷ items else (k, v) ∷ insert key value items

pub dict_from :
    List Evaluation → List (String × Option FlagValue) → List (String × Option FlagValue)
unfolding insert
dict_from [] items = items
dict_from (r ∷ results) items = dict_from results (insert r.key r.value items)

pub record EvaluateResponse : Type 0 where
  pub user_id : String
  pub environment : Environment
  pub flags : List (String × FlagValue)

-- `dict[str, FlagValue]`: a value that is `None` does not validate.
unfoldable pub flag_values : List (String × Option FlagValue) → Outcome (List (String × FlagValue))
flag_values [] = ok []
flag_values ((k, none) ∷ items) = raised unhandled
flag_values ((k, some v) ∷ items) = do rest ← flag_values items; ok ((k, v) ∷ rest)

unfoldable pub response_for : String → Environment → List Evaluation → Outcome EvaluateResponse
unfolding dict_from flag_values
response_for user_id environment results = do
  flags ← flag_values (dict_from results [])
  ok (record { user_id = user_id; environment = environment; flags = flags })

-- `[s for s in snapshots if s.key in wanted]`, if there are keys
abbrev pub scope_to : Option (List String) → List FlagSnapshot → List FlagSnapshot
scope_to none snapshots = snapshots
scope_to (some wanted) snapshots = select (λ s. member s.key wanted) snapshots

-- `_assert_tenant_matches`
unfoldable pub assert_tenant_matches : Uuid → ApiKey → Outcome (Unit {0})
assert_tenant_matches body_tenant_id api_key =
    raise_unless (body_tenant_id == api_key.tenant_id)
      (http_exception 403 "tenant_id does not match the API key")

module _ (services : Services) where
  -- The rest of `_load_flag_set`, after the cache has answered.
  unfoldable pub load_on_miss :
      Uuid
      → Environment
      → Option (List FlagSnapshot)
      → World services.redis
      → List FlagSnapshot × World services.redis
  load_on_miss tenant_id environment (some cached) w = (cached, w)
  load_on_miss tenant_id environment none w =
      let snapshots = compile w.database tenant_id environment in
      (
        snapshots,
        record w { server = set_flag_set services tenant_id environment snapshots w.server },
      )

  unfoldable pub load_flag_set :
      Uuid → Environment → World services.redis → List FlagSnapshot × World services.redis
  unfolding load_on_miss
  load_flag_set tenant_id environment w =
      let (cached, stats) = get_flag_set services tenant_id environment w.server w.stats in
      load_on_miss tenant_id environment cached (record w { stats = stats })

  -- What both endpoints do once the tenant matches. The counter of the metrics runs before the
  -- response is validated.
  unfoldable pub respond :
      Uuid
      → Environment
      → String
      → Context
      → Option (List String)
      → ℕ
      → Instant
      → Handler services.redis EvaluateResponse
  respond tenant_id environment user_id context flag_keys duration now w =
      let (snapshots, w') = load_flag_set tenant_id environment w in
      let results = evaluate_all services.platform (scope_to flag_keys snapshots) user_id context in
      (
        response_for user_id environment results,
        record w' {
          metrics =
              record_evaluation (services.uuid_text tenant_id) duration (length results) now
                w'.metrics;
        },
      )

  -- `raise`, or go on.
  unfoldable pub after :
      {A : Type 0} → Outcome (Unit {0}) → Handler services.redis A → Handler services.redis A
  after (raised e) next w = (raised e, w)
  after (ok u) next w = next w

  unfoldable pub evaluate_flags :
      EvaluateRequest → ApiKey → ℕ → Instant → Handler services.redis EvaluateResponse
  unfolding after respond
  evaluate_flags payload api_key duration now =
      after (assert_tenant_matches payload.tenant_id api_key) (
        respond api_key.tenant_id payload.environment payload.user_id payload.context
          payload.flag_keys duration now)

  unfoldable pub evaluate_bulk :
      BulkEvaluateRequest → ApiKey → ℕ → Instant → Handler services.redis EvaluateResponse
  unfolding after respond
  evaluate_bulk payload api_key duration now =
      after (assert_tenant_matches payload.tenant_id api_key) (
        respond api_key.tenant_id payload.environment payload.user_id payload.context none duration
          now)
