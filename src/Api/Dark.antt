-- ===== src/Api/Dark.antt =====
-- A new flag, from the POST to the evaluations behind it (app/routers/flags.py,
-- app/routers/evaluate.py, through app/cache.py).
use thinking_feature_flag_se.Common.{
  ◌≡◌, ◌∙◌, refl, sym, ap, subst, String, Bool, true, false, Option, some, List, [], ◌∷◌, All,
  All-map, In, here, there, inl, inr, Bool-cases, arith, map,
}
use thinking_feature_flag_se.Values.{Environment}
use thinking_feature_flag_se.Evaluation.{Context, FlagSnapshot, evaluate}
use thinking_feature_flag_se.Evaluation.Precedence.{kill_switch}
use thinking_feature_flag_se.Models.{
  Uuid, Instant, ApiKey, Flag, FlagEnvironmentConfig, Database, add_audit,
}
use thinking_feature_flag_se.Models.Integrity.{IsSound, DistinctKeys-eq, OnePerPlace-eq}
use thinking_feature_flag_se.Models.Appended.{In-append_last}
use thinking_feature_flag_se.Outcome.{Outcome, ok}
use thinking_feature_flag_se.Schemas.{FlagCreate, check_flag_create}
use thinking_feature_flag_se.Security.{require_tenant}
use thinking_feature_flag_se.Services.{Services, ServiceLaws}
use thinking_feature_flag_se.World.{World}
use thinking_feature_flag_se.Cache.Reads.{AcceptsDeletes}
use thinking_feature_flag_se.Routers.Evaluate.{snapshot_of, compile, load_flag_set}
use thinking_feature_flag_se.Routers.Evaluate.Served.{
  IsServed, compile-IsServed, In-compile, In-append_right,
}
use thinking_feature_flag_se.Routers.Flags.Create.{
  seed_value, new_flag, seeded_config, flag_conflicts, with_new_flag, create_flag,
}
use thinking_feature_flag_se.Routers.Flags.Create.Sound.{with_new_flag-IsSound}
use thinking_feature_flag_se.Api.{Body, post_flag, guarded, with_body, handle, serve}
use thinking_feature_flag_se.Api.Coherence.{IsCoherent, In-environments}
use thinking_feature_flag_se.Api.Coherence.Kept.{serve-IsCoherent, load_flag_set-current}

In-map {ℓ κ} :
    {A : Type ℓ} {B : Type κ} (f : A → B) {a : A} {xs : List A} → In a xs → In (f a) (map f xs)
In-map f here = here
In-map f (there m) = there (In-map f m)

module _ (services : Services) (payload : FlagCreate) (k : ApiKey) (id : Uuid) (now : Instant) where
  abbrev flag_of : Flag
  flag_of = new_flag payload k.tenant_id id now

  abbrev config_of : Environment → FlagEnvironmentConfig
  config_of = seeded_config flag_of (seed_value payload.type payload.default_value) now

  -- The tables hold the flag, and its config of each environment.
  record IsSeeded (db : Database) : Type 0 where
    pub sound : IsSound db
    pub flag_place : In flag_of db.flags
    pub config_place : (environment : Environment) → In (config_of environment) db.configs

  with_new_flag-IsSeeded :
      (db : Database)
      → IsSound db
      → check_flag_create payload ≡ true
      → flag_conflicts flag_of db ≡ false
      → IsSeeded (with_new_flag flag_of k now db)
  unfolding with_new_flag add_audit check_flag_create
  with_new_flag-IsSeeded db sound valid free = record {
    sound = with_new_flag-IsSound flag_of k now db (ground arith) free sound;
    flag_place = In-append_last flag_of db.flags;
    config_place =
        λ environment. In-append_right db.configs (In-map config_of (In-environments environment));
  }

  create_flag-IsSeeded :
      (valid : Bool) (w : World services.redis) {body : Body}
      → check_flag_create payload ≡ valid
      → IsSound w.database
      → (guarded services
          (ok k)
          valid
          Body.flag
          (λ key. create_flag services payload key id now)
          w).0
        ≡ ok body
      → IsSeeded
          (guarded services
            (ok k)
            valid
            Body.flag
            (λ key. create_flag services payload key id now)
            w).1.database
  unfolding guarded create_flag with_body
  create_flag-IsSeeded false w e sound done = absurd (cc)
  create_flag-IsSeeded true w e sound done = elim (Bool-cases (flag_conflicts flag_of w.database)) [
    | inl taken ↦ absurd (ground arith)
    | inr free ↦ rw (free, create_flag) (with_new_flag-IsSeeded w.database sound e free)
  ]

module _ (services : Services) (laws : ServiceLaws services) (x_api_key : Option String)
    (tenant_id : Uuid) (payload : FlagCreate) (id : Uuid) (now : Instant) (w : World services.redis)
    (k : ApiKey) where
  abbrev after_post : World services.redis
  after_post = (handle services x_api_key (post_flag tenant_id payload id now) w).1

  abbrev new_snapshot : Environment → FlagSnapshot
  new_snapshot environment =
      snapshot_of (flag_of services payload k id now)
        (config_of services payload k id now environment)

  -- The snapshot of the new flag, which is the only one of its key and serves the default to all.
  pub record IsDark (environment : Environment) (snapshots : List FlagSnapshot) : Type 0 where
    pub served : In (new_snapshot environment) snapshots
    pub only :
        All (λ (s : FlagSnapshot). s.key ≡ payload.key → s ≡ new_snapshot environment) snapshots
    pub dark :
        (user_id : String) (context : Context)
        → (evaluate services.platform (new_snapshot environment) user_id context).value
          ≡ some payload.default_value

  compile-IsDark :
      (environment : Environment) (db : Database)
      → IsSeeded services payload k id now db
      → IsDark environment (compile db k.tenant_id environment)
  unfolding snapshot_of
  compile-IsDark environment db seeded = record {
    served =
        In-compile db environment (flag_of services payload k id now)
          (config_of services payload k id now environment) refl (seeded.config_place environment)
          refl refl seeded.flag_place;
    only =
        All-map {Q = λ (s : FlagSnapshot). s.key ≡ payload.key → s ≡ new_snapshot environment}
          (λ s (is : IsServed db k.tenant_id environment s) same_key.
            let same_flag =
              DistinctKeys-eq seeded.sound.distinct_keys is.flag_place seeded.flag_place
                (is.same_tenant, sym (ap (λ (x : FlagSnapshot). x.key) is.compiled) ∙ same_key) in
            let same_config =
              OnePerPlace-eq seeded.sound.one_per_place is.config_place
                (seeded.config_place environment)
                (is.same_flag ∙ ap (λ (f : Flag). f.id) same_flag, is.same_environment) in
            is.compiled
            ∙ ap (λ f. snapshot_of f is.config) same_flag
            ∙ ap (snapshot_of (flag_of services payload k id now)) same_config)
          (compile db k.tenant_id environment) (compile-IsServed db k.tenant_id environment);
    dark = λ user_id context.
        kill_switch services.platform user_id context (new_snapshot environment) (inr refl);
  }

  -- Over a sound and coherent state whose cache is on and drops what it is told to: once a POST of a
  -- flag has answered with success, the flag set that an evaluation loads, in any environment and from
  -- the cache or not, holds the new flag, nothing else of its key, and serves its default to every user.
  pub post_flag-IsDark :
      {body : Body} (environment : Environment)
      → IsSound w.database
      → services.settings.cache_enabled ≡ true
      → ((server : services.redis.Server) → AcceptsDeletes services laws server)
      → IsCoherent services laws w.database w.server
      → require_tenant services.platform w.database tenant_id x_api_key ≡ ok k
      → (handle services x_api_key (post_flag tenant_id payload id now) w).0 ≡ ok body
      → IsDark environment (load_flag_set services k.tenant_id environment after_post).0
  unfolding handle serve
  post_flag-IsDark {body} environment sound on accepts coherent owner done =
      let call = post_flag tenant_id payload id now in
      let coherent' =
        serve-IsCoherent services laws ((x_api_key, call) ∷ []) w sound on accepts coherent in
      let run = λ (dependency : Outcome ApiKey).
        guarded services dependency (check_flag_create payload) Body.flag
          (λ key. create_flag services payload key id now) w in
      let seeded : IsSeeded services payload k id now after_post.database =
        subst (λ dependency. IsSeeded services payload k id now (run dependency).1.database)
          (sym owner)
          (create_flag-IsSeeded services payload k id now (check_flag_create payload) w refl sound
            (ap (λ dependency. (run dependency).0) (sym owner) ∙ done)) in
      subst (IsDark environment)
        (sym (load_flag_set-current services laws after_post k.tenant_id environment coherent'))
        (compile-IsDark environment after_post.database seeded)
