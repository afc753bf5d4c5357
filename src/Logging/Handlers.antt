-- ===== src/Logging/Handlers.antt =====
-- Which handlers see the lines of uvicorn (`configure_logging` of app/logging_config.py).
use thinking_feature_flag_se.Common.{
  ◌≡◌, ◌≢◌, ◌⊎◌, inl, inr, ◌∙◌, ap, refl, String, true, List, [], ◌∷◌, string_eq, member, All,
}
use thinking_feature_flag_se.Services.{
  Settings, AppEnv, local, development_env, staging_env, production_env,
}
use thinking_feature_flag_se.Logging.{
  Loggers, plain_text, cloud_logging, formatter_for, uvicorn_loggers, configure_logging,
  handlers_of,
}

pub formatter_for-cases :
    (e : AppEnv)
    → ((e ≡ local) × (formatter_for e ≡ plain_text))
      ⊎ ((e ≢ local) × (formatter_for e ≡ cloud_logging))
formatter_for-cases local = inl (refl, refl)
formatter_for-cases development_env = inr (λ same. cc (same), refl)
formatter_for-cases staging_env = inr (λ same. cc (same), refl)
formatter_for-cases production_env = inr (λ same. cc (same), refl)

handlers_of-root :
    (settings : Settings) (loggers : Loggers) (path : List String)
    → All (λ name. member name uvicorn_loggers ≡ true) path
    → handlers_of (configure_logging settings loggers) path ≡ formatter_for settings.app_env ∷ []
unfolding configure_logging handlers_of
handlers_of-root settings loggers [] h = refl
handlers_of-root settings loggers (name ∷ path) h =
    rw (h.0) (handlers_of-root settings loggers path h.1)

-- Whatever handlers the root and uvicorn have had: after `configure_logging` a line of the root or of
-- uvicorn's loggers is written by exactly one handler, as plain text where the service runs locally,
-- and for Cloud Logging in every other environment.
pub configure_logging-once :
    (settings : Settings) (loggers : Loggers) (path : List String)
    → All (λ name. member name uvicorn_loggers ≡ true) path
    → let configured = configure_logging settings loggers in
      ((settings.app_env ≡ local) × (handlers_of configured path ≡ plain_text ∷ []))
      ⊎ ((settings.app_env ≢ local) × (handlers_of configured path ≡ cloud_logging ∷ []))
unfolding configure_logging handlers_of
configure_logging-once settings loggers path h =
    let one = handlers_of-root settings loggers path h in
    elim (formatter_for-cases settings.app_env) [
      | inl (here_only, plain) ↦ inl (here_only, one ∙ ap (λ x. x ∷ []) plain)
      | inr (deployed, cloud) ↦ inr (deployed, one ∙ ap (λ x. x ∷ []) cloud)
    ]
