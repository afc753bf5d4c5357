-- ===== src/Http/Invariants.antt =====
-- What every handler and the counting of a request keep, the application keeps (app/main.py with
-- app/middleware.py): the tables stay sound, the cache coherent.
use thinking_feature_flag_se.Common.{
  ℕ, ◌≡◌, ◌≢◌, refl, sym, ap, String, true, Option, none, some, List, [], ◌∷◌, ◌==◌, nat_eq, ltb,
  if◌then◌else◌, if-either, ◌∙◌,
}
use thinking_feature_flag_se.Models.{Instant, Database}
use thinking_feature_flag_se.Models.Integrity.{IsSound}
use thinking_feature_flag_se.Outcome.{Outcome, ok, raised}
use thinking_feature_flag_se.Services.{Services, ServiceLaws, Reply, replied, failed}
use thinking_feature_flag_se.World.{World}
use thinking_feature_flag_se.Cache.{cache_key}
use thinking_feature_flag_se.Cache.Reads.{held, AcceptsDeletes}
use thinking_feature_flag_se.Api.{Call, handle, serve}
use thinking_feature_flag_se.Api.Sound.{serve-IsSound}
use thinking_feature_flag_se.Api.Coherence.{IsCoherent, held_is_current, IsCoherent-of_held}
use thinking_feature_flag_se.Api.Coherence.Kept.{serve-IsCoherent}
use thinking_feature_flag_se.Http.{
  Endpoint, api, livez, readyz, get_metrics, Request, non_empty, Response, Scope, untouched,
}
use thinking_feature_flag_se.Http.Routed.{routed, endpoint_run}
use thinking_feature_flag_se.Http.RateLimit.{
  limit_key, after_expire, after_incr, count_request, judged, counted, limited, map_response,
  with_remaining, too_many,
}
use thinking_feature_flag_se.Http.RateLimit.Keys.{cache_key-ne-limit_key}
use thinking_feature_flag_se.Http.Correlation.{completed, correlated, app, run}

module _ (services : Services) (Good : Database → services.redis.Server → Type 0)
    (handling : (x_api_key : Option String) (call : Call) (w : World services.redis)
      → Good w.database w.server
      → Good
          (handle services x_api_key call w).1.database
          (handle services x_api_key call w).1.server)
    (counting : (api_key : String) (now : Instant) (db : Database) (server : services.redis.Server)
      → Good db server
      → Good db (count_request services (limit_key services api_key now) server).1) where
  abbrev GoodWorld : World services.redis → Type 0
  GoodWorld w = Good w.database w.server

  routed-Good :
      (request : Request) (w : World services.redis)
      → GoodWorld w
      → GoodWorld (routed services request w).1
  unfolding routed
  routed-Good request w good = of_endpoint request.endpoint
    where
      of_endpoint : (endpoint : Endpoint) → GoodWorld (endpoint_run services endpoint request w).1
      of_endpoint (api call) = handling request.x_api_key call w good
      of_endpoint livez = good
      of_endpoint (readyz database ping) = good
      of_endpoint (get_metrics at) = good

  judged-Good :
      (count : Option ℕ) (request : Request) (w : World services.redis)
      → GoodWorld w
      → GoodWorld (judged services count (routed services) request w).1
  unfolding judged
  judged-Good none request w good = routed-Good request w good
  judged-Good (some n) request w good =
      of_out (routed services request w) (routed-Good request w good)
    where
      of_out :
          (out : (Outcome Response × Scope) × World services.redis)
          → GoodWorld out.1
          → GoodWorld
              (if ltb services.settings.rate_limit_per_minute n
                then ((ok (too_many services request.later), untouched), w)
                else map_response services (with_remaining services n) out).1
      of_out ((ok response, scope), v) h =
          if-either (λ (o : (Outcome Response × Scope) × World services.redis). GoodWorld o.1) _
            good h
      of_out ((raised e, scope), v) h =
          if-either (λ (o : (Outcome Response × Scope) × World services.redis). GoodWorld o.1) _
            good h

  counted-Good :
      (api_key : Option String) (request : Request) (w : World services.redis)
      → GoodWorld w
      → GoodWorld (counted services api_key (routed services) request w).1
  unfolding counted
  counted-Good none request w good = routed-Good request w good
  counted-Good (some api_key) request w good =
      let (count, server) =
        count_request services (limit_key services api_key request.now) w.server in
      judged-Good count request (record w { server = server })
        (counting api_key request.now w.database w.server good)

  limited-Good :
      (request : Request) (w : World services.redis)
      → GoodWorld w
      → GoodWorld (limited services (routed services) request w).1
  unfolding limited
  limited-Good request w good =
      if-either (λ (o : (Outcome Response × Scope) × World services.redis). GoodWorld o.1) _
        (routed-Good request w good) (counted-Good (non_empty request.x_api_key) request w good)

  completed-Good :
      (request : Request) (out : (Outcome Response × Scope) × World services.redis)
      → GoodWorld out.1
      → GoodWorld (completed request out).1
  unfolding completed
  completed-Good request ((ok response, scope), w) good = good
  completed-Good request ((raised e, scope), w) good = good

  run-Good :
      (requests : List Request) (w : World services.redis)
      → GoodWorld w
      → GoodWorld (run services requests w).1
  unfolding run app correlated
  run-Good [] w good = good
  run-Good (request ∷ requests) w good = run-Good requests (app services request w).1 (
      completed-Good request (limited services (routed services) request w)
        (limited-Good request w good))

-- Any requests to the application, one after the other, keep the tables well formed.
pub run-IsSound :
    (services : Services) (requests : List Request) (w : World services.redis)
    → IsSound w.database
    → IsSound (run services requests w).1.database
unfolding serve
run-IsSound services =
    run-Good services (λ db server. IsSound db)
      (λ x_api_key call w sound. serve-IsSound services ((x_api_key, call) ∷ []) w sound)
      (λ api_key now db server sound. sound)

module _ (services : Services) (laws : ServiceLaws services) where
  after_expire-server :
      (n : ℕ) (answer : Reply (Unit {0}) × services.redis.Server)
      → (after_expire services n answer).1 ≡ answer.1
  unfolding after_expire
  after_expire-server n (replied u, server) = refl
  after_expire-server n (failed, server) = refl

  after_incr-held :
      (key j : String) (text : services.redis.Value) (answer : Reply ℕ × services.redis.Server)
      → held services laws (after_incr services key answer).1 j ≡ some text
      → held services laws answer.1 j ≡ some text
  unfolding after_incr
  after_incr-held key j text (failed, after) found = found
  after_incr-held key j text (replied n, after) found =
      if-either
        (λ (o : Option ℕ × services.redis.Server).
          held services laws o.1 j ≡ some text → held services laws after j ≡ some text)
        (n == 1)
        (λ h. laws.redis_laws.expire_keeps after key 120 j text (
          ap (λ server. held services laws server j)
            (sym (after_expire-server n (services.redis.expire after key 120)))
          ∙ h))
        (λ h. h) found

  -- Counting a request stores nothing but its counter.
  count_request-held :
      (key j : String) (server : services.redis.Server) (text : services.redis.Value)
      → j ≢ key
      → held services laws (count_request services key server).1 j ≡ some text
      → held services laws server j ≡ some text
  unfolding count_request
  count_request-held key j server text other h =
      laws.redis_laws.incr_keeps server key j text other
        (after_incr-held key j text (services.redis.incr server key) h)

  count_request-IsCoherent :
      (api_key : String) (now : Instant) (db : Database) (server : services.redis.Server)
      → IsCoherent services laws db server
      → IsCoherent services laws db
          (count_request services (limit_key services api_key now) server).1
  count_request-IsCoherent api_key now db server coherent =
      IsCoherent-of_held services laws (λ t e text found.
        held_is_current services laws t e coherent (
          count_request-held (limit_key services api_key now) (cache_key services t e) server text
            (λ same. cache_key-ne-limit_key services t e api_key now (sym same)) found))

  -- With a cache that is on, well-formed tables and a server that answers each DEL: any requests to the
  -- application, the limiter's counters in the same server, keep every cached flag set equal to what the
  -- tables compile to.
  pub run-IsCoherent :
      (requests : List Request) (w : World services.redis)
      → IsSound w.database
      → services.settings.cache_enabled ≡ true
      → ((server : services.redis.Server) → AcceptsDeletes services laws server)
      → IsCoherent services laws w.database w.server
      → IsCoherent services laws
          (run services requests w).1.database
          (run services requests w).1.server
  unfolding serve
  run-IsCoherent requests w sound on accepts coherent =
      (run-Good services (λ db server. IsSound db × IsCoherent services laws db server)
        (λ x_api_key call v good. (
          serve-IsSound services ((x_api_key, call) ∷ []) v good.0,
          serve-IsCoherent services laws ((x_api_key, call) ∷ []) v good.0 on accepts good.1,
        ))
        (λ api_key now db server good.
          (good.0, count_request-IsCoherent api_key now db server good.1))
        requests w (sound, coherent)).1
