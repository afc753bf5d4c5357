-- ===== src/Cache/Keys.antt =====
-- The keys of the cache (`_key` of app/cache.py).
use text.Mathlib.TextLemmas.{append_cancel_left}
use thinking_feature_flag_se.Common.{◌≡◌, refl, true, ◌==◌, string_eq}
use thinking_feature_flag_se.Common.Texts.{colon_cuts}
use thinking_feature_flag_se.Values.{
  Environment, development, staging, production, environment_value,
}
use thinking_feature_flag_se.Models.{Uuid}
use thinking_feature_flag_se.Services.{Services, ServiceLaws}
use thinking_feature_flag_se.Cache.{cache_key}
use text.Mathlib.TextEquality.{eq_iff}

values_differ : (e e' : Environment) → (environment_value e == environment_value e') ≡ true → e ≡ e'
values_differ development development h = refl
values_differ staging staging h = refl
values_differ production production h = refl
values_differ e e' h = cc

environment_value-injective :
    (e e' : Environment) → environment_value e ≡ environment_value e' → e ≡ e'
environment_value-injective e e' h =
    values_differ e e' ((eq_iff (environment_value e) (environment_value e')).1 h)

-- Two entries of the cache share a key only if tenant and environment agree.
pub cache_key-injective :
    (services : Services) (laws : ServiceLaws services) (t t' : Uuid) (e e' : Environment)
    → cache_key services t e ≡ cache_key services t' e'
    → (t ≡ t') × (e ≡ e')
cache_key-injective services laws t t' e e' h =
    let cut =
      colon_cuts (services.uuid_text t) (services.uuid_text t') (environment_value e)
        (environment_value e') (laws.uuid_text-Lacks t) (laws.uuid_text-Lacks t')
        (append_cancel_left "flags:" _ _ h) in
    (laws.uuid_text-injective t t' cut.0, environment_value-injective e e' cut.1)
