-- ===== src/Http/RateLimit/Charged.antt =====
-- Which counter a request is charged to (`RateLimitMiddleware.dispatch` of app/middleware.py), and what
-- INCR and EXPIRE do to the counters.
use thinking_feature_flag_se.Common.{
  ℕ, ◌+◌, ◌≡◌, ◌≢◌, refl, ap, ◌∙◌, String, not, ◌||◌, Option, none, some, ◌==◌, nat_eq, string_eq,
  member, if◌then◌else◌, Bool-cases, inl, inr,
}
use thinking_feature_flag_se.Outcome.{Outcome}
use thinking_feature_flag_se.Services.{
  Services, Reply, replied, failed, CounterLaws, CounterAnswers,
}
use thinking_feature_flag_se.World.{World}
use thinking_feature_flag_se.Http.{Request, non_empty, Response, Scope, App}
use thinking_feature_flag_se.Http.RateLimit.{
  exempt, limit_key, count_request, after_incr, after_expire, judged, counted, limited,
}

module _ (services : Services) where
  open services use {settings, redis}

  key_of : Option String → Request → Option String
  key_of none request = none
  key_of (some api_key) request = some (limit_key services api_key request.now)

  -- The counter of a request, unless the limiter lets it by.
  unfoldable pub charged : Request → Option String
  unfolding key_of
  charged request =
      if not settings.rate_limit_enabled || member request.path exempt
      then none
      else key_of (non_empty request.x_api_key) request

  unfoldable pub limited_by :
      Option String → App redis → Request → World redis → (Outcome Response × Scope) × World redis
  limited_by none call_next request w = call_next request w
  limited_by (some key) call_next request w =
      let (count, server) = count_request services key w.server in
      judged services count call_next request (record w { server = server })

  pub limited-charged :
      (call_next : App redis) (request : Request) (w : World redis)
      → limited services call_next request w ≡ limited_by (charged request) call_next request w
  unfolding limited charged limited_by
  limited-charged call_next request w =
      elim (Bool-cases (not settings.rate_limit_enabled || member request.path exempt)) [
        | inl free ↦ rw free refl
        | inr bound ↦ rw bound (of_key (non_empty request.x_api_key))
      ]
    where
      of_key :
          (api_key : Option String)
          → counted services api_key call_next request w
            ≡ limited_by (key_of api_key request) call_next request w
      of_key none = refl
      of_key (some api_key) = refl

  pub after_incr-replied :
      (key : String) (answer : Reply ℕ × redis.Server) (n : ℕ)
      → answer.0 ≡ replied n
      → after_incr services key answer ≡ (
          if n == 1
          then after_expire services n (redis.expire answer.1 key 120)
          else (some n, answer.1))
  unfolding after_incr
  after_incr-replied key (replied m, server) n e =
      let same : m ≡ n = cc in
      ap
        (λ k.
          if k == 1
          then after_expire services k (redis.expire server key 120)
          else (some k, server))
        same
  after_incr-replied key (failed, server) n e = cc

  after_expire-replied :
      (n : ℕ) (answer : Reply (Unit {0}) × redis.Server)
      → answer.0 ≡ replied tt
      → after_expire services n answer ≡ (some n, answer.1)
  unfolding after_expire
  after_expire-replied n (replied u, server) e = refl
  after_expire-replied n (failed, server) e = cc

  -- The counters after a request is charged: its own one higher, which is the count that it got, and
  -- the others as they were.
  pub record Charges (laws : CounterLaws redis) (key : String) (server : redis.Server)
      : Type 0 where
    pub after : redis.Server
    pub counts : count_request services key server ≡ (some (laws.count server key + 1), after)
    pub own : laws.count after key ≡ laws.count server key + 1
    pub others : (j : String) → j ≢ key → laws.count after j ≡ laws.count server j

  pub count_request-Charges :
      (laws : CounterLaws redis) (answers : CounterAnswers redis) (key : String)
      (server : redis.Server)
      → Charges laws key server
  unfolding count_request
  count_request-Charges laws answers key server =
      let (n, replies) = answers.incr_answers server key in
      let n_is = laws.incr_replies server key n replies in
      let s₁ = (redis.incr server key).1 in
      let own₁ = laws.incr_counts server key n replies in
      elim (Bool-cases (n == 1)) [
        | inr more ↦ record {
          after = s₁;
          counts =
              after_incr-replied key (redis.incr server key) n replies
              ∙ rw more (ap (λ k. (some k, s₁)) n_is);
          own = own₁;
          others = λ j other. laws.incr_others server key j other;
        }
        | inl first ↦ record {
          after = (redis.expire s₁ key 120).1;
          counts =
              after_incr-replied key (redis.incr server key) n replies
              ∙ rw first (
                  after_expire-replied n (redis.expire s₁ key 120)
                    (answers.expire_answers s₁ key 120)
                  ∙ ap (λ k. (some k, (redis.expire s₁ key 120).1)) n_is);
          own = laws.expire_others s₁ key 120 key ∙ own₁;
          others = λ j other. laws.expire_others s₁ key 120 j ∙ laws.incr_others server key j other;
        }
      ]
