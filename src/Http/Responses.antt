-- ===== src/Http/Responses.antt =====
-- What the responses of the whole application carry (app/main.py, app/middleware.py).
use thinking_feature_flag_se.Common.{
  ◌≡◌, ◌↔◌, refl, sym, ap, ◌∙◌, String, true, none, some, [], ◌∷◌, ◌==◌, nat_eq, string_eq, member,
  Bool-cases, inl, inr, eq_self, arith,
}
use thinking_feature_flag_se.Outcome.{Outcome, ok, raised}
use thinking_feature_flag_se.Services.{Services, Redis}
use thinking_feature_flag_se.World.{World}
use thinking_feature_flag_se.Http.{
  Probe, readyz, Request, Headers, Response, set_header, get_header, with_header, Scope,
}
use thinking_feature_flag_se.Http.Root
use thinking_feature_flag_se.Http.Routed.{routed, endpoint_run}
use thinking_feature_flag_se.Http.RateLimit.{exempt, limited}
use thinking_feature_flag_se.Http.Correlation.{request_id, completed, correlated, app}

get_header-set_header :
    (name value : String) (headers : Headers)
    → get_header name (set_header name value headers) ≡ some value
unfolding set_header get_header
get_header-set_header name value [] = rw (eq_self name) refl
get_header-set_header name value ((n, v) ∷ headers) = elim (Bool-cases (n == name)) [
  | inl same ↦ rw (same, eq_self name) refl
  | inr other ↦ rw (other, other) (get_header-set_header name value headers)
]

completed-request_id :
    {redis : Redis} (request : Request) (out : (Outcome Response × Scope) × World redis)
    (response : Response)
    → (completed request out).0.0 ≡ ok response
    → get_header "x-request-id" response.headers ≡ some (request_id request)
unfolding completed
completed-request_id request ((raised x, scope), v) response e = cc
completed-request_id request ((ok inner, scope), v) response e =
    let marked : with_header "x-request-id" (request_id request) inner ≡ response = cc (e) in
    ap (λ (r : Response). get_header "x-request-id" r.headers) (sym marked)
    ∙ get_header-set_header "x-request-id" (request_id request) inner.headers

readyz-ready :
    (database ping : Probe) → ((Root.readyz database ping).status_code ≡ 200) ↔ (database ≡ none)
unfolding Root.readyz
readyz-ready none ping = ((λ e. refl), (λ e. refl))
readyz-ready (some text) ping = ((λ e. absurd (omega arith)), (λ e. cc))

module _ (services : Services) (request : Request) (w : World services.redis) where
  -- Every response, a 429 too, names the request in `x-request-id`: by the header that the client sent
  -- under that name, unless it is missing or empty.
  pub app-request_id :
      (response : Response)
      → (app services request w).0.0 ≡ ok response
      → get_header "x-request-id" response.headers ≡ some (request_id request)
  unfolding app correlated
  app-request_id = completed-request_id request (limited services (routed services) request w)

  exempt-app :
      member request.path exempt ≡ true
      → app services request w ≡ correlated (routed services) request w
  unfolding app correlated limited
  exempt-app e = ap (completed request) (elim (Bool-cases services.settings.rate_limit_enabled) [
    | inl on ↦ rw (on, e) refl
    | inr off ↦ rw off refl
  ])

  -- A readiness probe is answered whatever Redis does and whatever the limiter counts, and leaves the
  -- database and Redis alone. Its answer is 200 exactly if the probe of Postgres succeeds.
  pub readyz-app :
      (database ping : Probe)
      → request.endpoint ≡ readyz database ping
      → request.path ≡ "/readyz"
      → let ((result, scope), w') = app services request w in
        (result ≡ ok (with_header "x-request-id" (request_id request) (Root.readyz database ping)))
        × (w'.database ≡ w.database)
        × (w'.server ≡ w.server)
        × (((Root.readyz database ping).status_code ≡ 200) ↔ (database ≡ none))
  unfolding correlated routed
  readyz-app database ping e p =
      let through : app services request w
          ≡ completed request (endpoint_run services (readyz database ping) request w) =
        exempt-app (ap (λ path. member path exempt) p)
        ∙ ap (λ endpoint. completed request (endpoint_run services endpoint request w)) e in
      (
        ap (λ (o : (Outcome Response × Scope) × World services.redis). o.0.0) through,
        ap (λ (o : (Outcome Response × Scope) × World services.redis). o.1.database) through,
        ap (λ (o : (Outcome Response × Scope) × World services.redis). o.1.server) through,
        readyz-ready database ping,
      )
