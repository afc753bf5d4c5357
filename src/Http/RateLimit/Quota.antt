-- ===== src/Http/RateLimit/Quota.antt =====
-- How many requests the limiter lets through (app/middleware.py, around the whole application).
use thinking_feature_flag_se.Common.{
  ℕ, ◌+◌, ◌-◌, ◌≡◌, sym, ap, subst, ◌∙◌, String, Bool, true, false, ◌&&◌, Option, none, some, List,
  [], ◌∷◌, ◌==◌, nat_eq, string_eq, ltb, if◌then◌else◌, Bool-cases, inl, inr, arith, eq_of_test,
  ne_of_test,
}
use thinking_feature_flag_se.Models.{Instant}
use thinking_feature_flag_se.Outcome.{Outcome, ok, raised}
use thinking_feature_flag_se.Services.{Services, CounterLaws, CounterAnswers}
use thinking_feature_flag_se.World.{World}
use thinking_feature_flag_se.Http.{Request, Response, Scope, untouched}
use thinking_feature_flag_se.Http.RateLimit.Counters.{routed-Keeps}
use thinking_feature_flag_se.Http.Routed.{routed}
use thinking_feature_flag_se.Http.RateLimit.{
  limit_key, judged, map_response, limited, too_many, with_remaining,
}
use thinking_feature_flag_se.Http.RateLimit.Charged.{
  charged, limited_by, limited-charged, count_request-Charges,
}
use thinking_feature_flag_se.Http.Correlation.{correlated, app, run}
use thinking_feature_flag_se.Http.RateLimit.Throttled.{
  is_throttled, completed-throttled, completed-server, judged-throttled,
}

module _ (services : Services) (laws : CounterLaws services.redis) (api_key : String)
    (now : Instant) where
  -- The counter of an API key in one window.
  abbrev pub key : String
  key = limit_key services api_key now

  abbrev Keeps : services.redis.Server → services.redis.Server → Type 0
  Keeps s s' = laws.count s' key ≡ laws.count s key

  judged-Keeps :
      (n : ℕ) (request : Request) (w : World services.redis)
      → Keeps w.server (judged services (some n) (routed services) request w).1.server
  unfolding judged
  judged-Keeps n request w =
      of_out (routed services request w) (routed-Keeps services laws api_key now request w)
    where
      of_out :
          (out : (Outcome Response × Scope) × World services.redis)
          → Keeps w.server out.1.server
          → Keeps w.server
              (if ltb services.settings.rate_limit_per_minute n
                then ((ok (too_many services request.later), untouched), w)
                else map_response services (with_remaining services n) out).1.server
      of_out ((ok response, scope), v) h = ground arith
      of_out ((raised e, scope), v) h = ground arith

  -- Whether a request is charged to the counter `key`.
  pub counts_here : Option String → Bool
  counts_here none = false
  counts_here (some k) = k == key

  -- How many of the requests are charged to the counter, and how many of those get a 429.
  pub requested : List Request → ℕ
  requested [] = 0
  requested (request ∷ requests) =
      (if counts_here (charged services request) then 1 else 0) + requested requests

  pub throttled : List Request → List (Outcome Response) → ℕ
  throttled [] results = 0
  throttled (request ∷ requests) [] = 0
  throttled (request ∷ requests) (result ∷ results) =
      (if counts_here (charged services request) && is_throttled result then 1 else 0)
      + throttled requests results

  module _ (answers : CounterAnswers services.redis) where
    -- One request: if it is charged to the counter, it raises the count by one, and is throttled
    -- exactly when the quota is used up; if not, it leaves the count.
    limited-Charging :
        (request : Request) (w : World services.redis)
        → (laws.count (limited services (routed services) request w).1.server key ≡ (
            if counts_here (charged services request)
            then laws.count w.server key + 1
            else laws.count w.server key))
          × (counts_here (charged services request) ≡ true
              → is_throttled (limited services (routed services) request w).0.0
                ≡ ltb services.settings.rate_limit_per_minute (laws.count w.server key + 1))
    unfolding counts_here limited_by
    limited-Charging request w =
        rw (limited-charged services (routed services) request w)
          (by_charge (charged services request))
      where
        by_charge :
            (charge : Option String)
            → (laws.count (limited_by services charge (routed services) request w).1.server key ≡ (
                if counts_here charge
                then laws.count w.server key + 1
                else laws.count w.server key))
              × (counts_here charge ≡ true
                  → is_throttled (limited_by services charge (routed services) request w).0.0
                    ≡ ltb services.settings.rate_limit_per_minute (laws.count w.server key + 1))
        by_charge none = (routed-Keeps services laws api_key now request w, λ e. absurd (cc))
        by_charge (some k) =
            let c = count_request-Charges services laws answers k w.server in
            let v = record w { server = c.after } in
            let kept = judged-Keeps (laws.count w.server k + 1) request v in
            let told = judged-throttled services (laws.count w.server k + 1) request v in
            elim (Bool-cases (k == key)) [
              | inl same ↦
                  let here = eq_of_test k key same in
                  rw (c.counts, same)
                    (
                      kept
                          ∙ subst (λ j. laws.count c.after j ≡ laws.count w.server j + 1) here
                              c.own,
                      λ e.
                          told
                          ∙ ap
                              (λ j.
                                ltb services.settings.rate_limit_per_minute
                                  (laws.count w.server j + 1))
                              here,
                    )
              | inr other ↦
                  rw (c.counts, other)
                    (kept ∙ c.others key (λ e. ne_of_test k key other (sym e)), λ e. absurd (cc))
            ]

    app-Charging :
        (request : Request) (w : World services.redis)
        → (laws.count (app services request w).1.server key ≡ (
            if counts_here (charged services request)
            then laws.count w.server key + 1
            else laws.count w.server key))
          × (counts_here (charged services request) ≡ true
              → is_throttled (app services request w).0.0
                ≡ ltb services.settings.rate_limit_per_minute (laws.count w.server key + 1))
    unfolding app correlated
    app-Charging request w =
        let out = limited services (routed services) request w in
        let (count, answer) = limited-Charging request w in
        (
          ap (λ s. laws.count s key) (completed-server services request out) ∙ count,
          λ here. completed-throttled services request out ∙ answer here,
        )

    -- While no counter of Redis expires and each INCR and EXPIRE gets through: of any requests, one
    -- after the other, the number of those that are charged to a counter and get a 429 is the number
    -- of those that are charged to it less what the quota has left at the start, and not below zero.
    pub run-throttled :
        (requests : List Request) (w : World services.redis)
        → throttled requests (run services requests w).0
          ≡ requested requests - (services.settings.rate_limit_per_minute - laws.count w.server key)
    unfolding run throttled requested
    run-throttled [] w = omega arith
    run-throttled (request ∷ requests) w =
        let (count, answer) = app-Charging request w in
        let rest = run-throttled requests (app services request w).1 in
        elim (Bool-cases (counts_here (charged services request))) [
          | inl here ↦ rw here (ground (arith, answer here, rest, count, here))
          | inr away ↦ rw away (ground (arith, rest, count, away))
        ]
