-- ===== src/Http/RateLimit/Counters.antt =====
-- What the endpoints leave of a counter of the limiter (app/cache.py under app/routers).
use thinking_feature_flag_se.Common.{
  ◌≡◌, refl, ap, ◌∙◌, String, false, Option, none, List, [], ◌∷◌, map, ◌==◌, nat_eq, string_eq,
  member, if-either, Bool-cases, inl, inr, eq_of_test,
}
use thinking_feature_flag_se.Values.{Environment}
use thinking_feature_flag_se.Evaluation.{FlagSnapshot}
use thinking_feature_flag_se.Schemas.{value_of}
use thinking_feature_flag_se.Routers.Evaluate.{compile}
use thinking_feature_flag_se.Routers.Flags.Update.{invalidation_scope}
use thinking_feature_flag_se.Models.{ApiKey, Database, Uuid, Instant}
use thinking_feature_flag_se.Services.{Services, CounterLaws}
use thinking_feature_flag_se.Cache.{cache_key, encode, set_flag_set, invalidate, invalidated}
use thinking_feature_flag_se.World.{World}
use thinking_feature_flag_se.Api.Effect.{
  Effect, reads, fills, creates, updates, archives, Step, refused, tenant_made, under, handle-Step,
}
use thinking_feature_flag_se.Http.{Endpoint, api, livez, readyz, get_metrics, Request}
use thinking_feature_flag_se.Http.Routed.{routed, endpoint_run}
use thinking_feature_flag_se.Http.RateLimit.{limit_key}
use thinking_feature_flag_se.Http.RateLimit.Keys.{cache_key-ne-limit_key}

module _ (services : Services) (laws : CounterLaws services.redis) (api_key : String)
    (now : Instant) where
  abbrev key : String
  key = limit_key services api_key now

  abbrev Keeps : services.redis.Server → services.redis.Server → Type 0
  Keeps s s' = laws.count s' key ≡ laws.count s key

  not_deleted :
      (t : Uuid) (es : List Environment) → member key (map (cache_key services t) es) ≡ false
  not_deleted t [] = refl
  not_deleted t (e ∷ es) = elim (Bool-cases (key == cache_key services t e)) [
    | inl same ↦ absurd (
        cache_key-ne-limit_key services t e api_key now
          (eq_of_test key (cache_key services t e) same))
    | inr other ↦ rw other (not_deleted t es)
  ]

  set_flag_set-Keeps :
      (t : Uuid) (e : Environment) (snapshots : List FlagSnapshot) (s : services.redis.Server)
      → Keeps s (set_flag_set services t e snapshots s)
  unfolding set_flag_set
  set_flag_set-Keeps t e snapshots s =
      if-either (Keeps s) services.settings.cache_enabled
        (laws.set_others s (cache_key services t e) (encode services snapshots)
          services.settings.cache_ttl_seconds key (cache_key-ne-limit_key services t e api_key now))
        refl

  invalidate-Keeps :
      (t : Uuid) (scope : Option Environment) (s : services.redis.Server)
      → Keeps s (invalidate services t scope s)
  unfolding invalidate
  invalidate-Keeps t scope s =
      if-either (Keeps s) services.settings.cache_enabled
        (laws.delete_others s (map (cache_key services t) (invalidated scope)) key
          (not_deleted t (invalidated scope)))
        refl

  Effect-Keeps :
      {k : ApiKey} {db : Database} {s : services.redis.Server} {db' : Database}
      {s' : services.redis.Server}
      → Effect services k db s db' s'
      → Keeps s s'
  Effect-Keeps {s = s} (reads e t) = ap (λ v. laws.count v key) t
  Effect-Keeps {k} {db} {s} (fills environment e t) =
      ap (λ v. laws.count v key) t
      ∙ set_flag_set-Keeps k.tenant_id environment (compile db k.tenant_id environment) s
  Effect-Keeps {k} {db} {s} (creates flag at owned typed active free e t) =
      ap (λ v. laws.count v key) t ∙ invalidate-Keeps k.tenant_id none s
  Effect-Keeps {k} {db} {s} (updates payload flag_key at flag changes run_ t) =
      ap (λ v. laws.count v key) t
      ∙ invalidate-Keeps k.tenant_id (invalidation_scope changes (value_of payload.environment)) s
  Effect-Keeps {k} {db} {s} (archives flag_key at flag found active e t) =
      ap (λ v. laws.count v key) t ∙ invalidate-Keeps k.tenant_id none s

  Step-Keeps :
      {x_api_key : Option String} {w w' : World services.redis}
      → Step services x_api_key w w'
      → Keeps w.server w'.server
  Step-Keeps (refused e) = ap (λ (v : World services.redis). laws.count v.server key) e
  Step-Keeps (tenant_made admitted tenant k e) =
      ap (λ (v : World services.redis). laws.count v.server key) e
  Step-Keeps (under k authenticated effect) = Effect-Keeps effect

  pub routed-Keeps :
      (request : Request) (w : World services.redis)
      → Keeps w.server (routed services request w).1.server
  unfolding routed
  routed-Keeps request w = of_endpoint request.endpoint
    where
      of_endpoint :
          (endpoint : Endpoint) → Keeps w.server (endpoint_run services endpoint request w).1.server
      of_endpoint (api call) = Step-Keeps (handle-Step services request.x_api_key call w)
      of_endpoint livez = refl
      of_endpoint (readyz database ping) = refl
      of_endpoint (get_metrics at) = refl
