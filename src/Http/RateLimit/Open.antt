-- ===== src/Http/RateLimit/Open.antt =====
-- The limiter while Redis fails (`except Exception` of `RateLimitMiddleware.dispatch`,
-- app/middleware.py).
use thinking_feature_flag_se.Common.{
  ℕ, ◌≡◌, ◌⊎◌, inl, inr, refl, ap, ◌∙◌, String, Option, none, some, nat_eq,
}
use thinking_feature_flag_se.Services.{Services, Reply, replied, failed}
use thinking_feature_flag_se.World.{World}
use thinking_feature_flag_se.Http.{Request, App}
use thinking_feature_flag_se.Http.RateLimit.{
  count_request, after_incr, after_expire, judged, limited,
}
use thinking_feature_flag_se.Http.RateLimit.Charged.{
  charged, limited_by, limited-charged, after_incr-replied,
}

module _ (services : Services) where
  open services use {redis}

  -- INCR raises, or it counts 1 and the EXPIRE behind it raises.
  abbrev pub Unavailable : String → redis.Server → Type 0
  Unavailable key server =
      let (count, server') = redis.incr server key in
      (count ≡ failed) ⊎ ((count ≡ replied 1) × ((redis.expire server' key 120).0 ≡ failed))

  after_incr-failed :
      (key : String) (answer : Reply ℕ × redis.Server)
      → answer.0 ≡ failed
      → (after_incr services key answer).0 ≡ none
  unfolding after_incr
  after_incr-failed key (failed, server) e = refl
  after_incr-failed key (replied n, server) e = cc

  after_expire-failed :
      (n : ℕ) (answer : Reply (Unit {0}) × redis.Server)
      → answer.0 ≡ failed
      → (after_expire services n answer).0 ≡ none
  unfolding after_expire
  after_expire-failed n (failed, server) e = refl
  after_expire-failed n (replied u, server) e = cc

  count_request-Unavailable :
      (key : String) (server : redis.Server)
      → Unavailable key server
      → (count_request services key server).0 ≡ none
  unfolding count_request
  count_request-Unavailable key server (inl e) = after_incr-failed key (redis.incr server key) e
  count_request-Unavailable key server (inr (first, e)) =
      ap (λ (o : Option ℕ × redis.Server). o.0)
        (after_incr-replied services key (redis.incr server key) 1 first)
      ∙ after_expire-failed 1 (redis.expire (redis.incr server key).1 key 120) e

  -- A request whose count fails in Redis, by INCR or by EXPIRE, is neither rejected nor marked with
  -- the limiter's headers: what comes out is what the application inside the limiter makes of it.
  pub limited-open :
      (call_next : App redis) (request : Request) (w : World redis) (key : String)
      → charged services request ≡ some key
      → Unavailable key w.server
      → limited services call_next request w
        ≡ call_next request (record w { server = (count_request services key w.server).1 })
  unfolding limited_by judged
  limited-open call_next request w key counts unavailable =
      rw
        (
          limited-charged services call_next request w,
          counts,
          count_request-Unavailable key w.server unavailable,
        )
        refl
