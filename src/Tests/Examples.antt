-- ===== src/Tests/Examples.antt =====
-- The theorems at concrete inputs.
use thinking_feature_flag_se.Tests.Setup.{config_in}
use thinking_feature_flag_se.Tests.Setup.{dark_mode}
use thinking_feature_flag_se.Routers.Evaluate.{snapshot_of}
use thinking_feature_flag_se.Common.{◌≢◌}
use thinking_feature_flag_se.Evaluation.{FlagSnapshot}
use thinking_feature_flag_se.Api.{post_tenant}
use thinking_feature_flag_se.Routers.Evaluate.Served.{In-compile_iff}
use thinking_feature_flag_se.Common.{
  ◌≡◌, ◌⊎◌, ◌↔◌, ◌<◌, ◌++◌, refl, String, true, false, Option, none, some, List, [], ◌∷◌, arith, In,
}
use thinking_feature_flag_se.Values.{production, bool, str}
use thinking_feature_flag_se.Evaluation.{
  evaluate_all, Context, scalar, evaluate, bucket_for, from_bytes, actual_value, outside_rollout,
  in_rollout,
}
use thinking_feature_flag_se.Evaluation.Precedence.{serves, Resolves, evaluate-iff-Resolves}
use thinking_feature_flag_se.Evaluation.Rollout.{
  at_percentage, widening_adds, malformed_rules_serve_value,
}
use thinking_feature_flag_se.Evaluation.Rules.{TextOperators, text_operators, no_actual}
use thinking_feature_flag_se.Metrics.{no_metrics, record_request}
use thinking_feature_flag_se.Metrics.Counts.{IsConsistent, record_request-IsConsistent}
use thinking_feature_flag_se.Models.{Database}
use thinking_feature_flag_se.Models.Integrity.{IsSound}
use thinking_feature_flag_se.Schemas.{EvaluateRequest, check_flag_create}
use thinking_feature_flag_se.Schemas.Keys.{valid_keys_hash_apart}
use thinking_feature_flag_se.Outcome.{ok}
use thinking_feature_flag_se.Security.{hash_api_key, authenticate, require_tenant}
use thinking_feature_flag_se.Security.Access.{require_tenant-owner}
use thinking_feature_flag_se.Api.Operator.{SameTenants, handle-SameTenants}
use thinking_feature_flag_se.Routers.Evaluate.{compile, response_for, evaluate_flags}
use thinking_feature_flag_se.Api.{Call, put_flag, post_evaluate, handle, serve}
use thinking_feature_flag_se.Api.Isolation.Writes.{SameFor}
use thinking_feature_flag_se.Api.Isolation.{handle-isolates}
use thinking_feature_flag_se.Api.Coherence.{IsCoherent}
use thinking_feature_flag_se.Api.Coherence.Kept.{serve-IsCoherent}
use thinking_feature_flag_se.Api.Served.{evaluate_flags-current}
use thinking_feature_flag_se.Routers.Tenants.{TenantCreated, new_key, create_tenant}
use thinking_feature_flag_se.Routers.Tenants.Registered.{create_tenant-require_tenant}
use thinking_feature_flag_se.Routers.Evaluate.Served.{IsServed}
use thinking_feature_flag_se.Api.Sound.{serve-IsSound}
use thinking_feature_flag_se.Cache.Connection.{
  ClientCall, getting, closing, client_calls, no_connection, close_client, IsTidy,
  client_calls-closed,
}
use thinking_feature_flag_se.Services.{
  default_settings, check_settings, is_production, production_env,
}
use thinking_feature_flag_se.Tests.Setup.{
  settings, services, laws, platform, alice, db, db-IsSound, world, snapshot, new_payload, kill,
  cold,
}

abbrev switch_off : Call
switch_off = put_flag 1 "dark-mode" kill 9

abbrev question : EvaluateRequest
question = record {
  tenant_id = 1;
  environment = production;
  user_id = "u1";
  context = [];
  flag_keys = none;
}

abbrev ask : Call
ask = post_evaluate question 3 8

abbrev requests : List (Option String × Call)
requests = (some "ffs_a", ask) ∷ (some "ffs_a", switch_off) ∷ (none, ask) ∷ []

alice_authenticated : authenticate platform db (some "ffs_a") ≡ ok alice
unfolding authenticate
alice_authenticated = refl

alice_owns : require_tenant platform db 1 (some "ffs_a") ≡ ok alice
unfolding require_tenant
alice_owns = refl

handle-isolates_example : SameFor 2 db (handle services (some "ffs_a") switch_off world).1.database
handle-isolates_example =
    handle-isolates services (some "ffs_a") switch_off world alice 2 db-IsSound alice_authenticated
      (λ e. ground arith)

serve-IsCoherent_example :
    IsCoherent services laws
      (serve services requests world).database
      (serve services requests world).server
serve-IsCoherent_example =
    serve-IsCoherent services laws requests world db-IsSound refl (λ server ks. refl) cold

evaluate_flags-current_example :
    (evaluate_flags services question alice 3 10 (serve services requests world)).0
    ≡ response_for "u1" production (
        evaluate_all platform
          (compile (serve services requests world).database 1 production)
          "u1"
          [])
evaluate_flags-current_example =
    evaluate_flags-current services question alice 3 10 laws (serve services requests world)
      serve-IsCoherent_example refl

abbrev served : FlagSnapshot
served = snapshot_of dark_mode (config_in production)

In-compile_iff_example : In served (compile db 1 production) ↔ IsServed db 1 production served
In-compile_iff_example = In-compile_iff db 1 production served

serve-IsSound_example : IsSound (serve services requests world).database
serve-IsSound_example = serve-IsSound services requests world db-IsSound

evaluate-iff-Resolves_example :
    Resolves platform "u1" [] snapshot (serves snapshot (some (bool false)) outside_rollout)
    ↔ (evaluate platform snapshot "u1" [] ≡ serves snapshot (some (bool false)) outside_rollout)
evaluate-iff-Resolves_example =
    evaluate-iff-Resolves platform "u1" [] snapshot
      (serves snapshot (some (bool false)) outside_rollout)

widening_adds_example :
    (evaluate platform (at_percentage snapshot 90) "u1" []
      ≡ evaluate platform (at_percentage snapshot 30) "u1" [])
    ⊎ (((evaluate platform (at_percentage snapshot 30) "u1" []).reason ≡ outside_rollout)
        × ((evaluate platform (at_percentage snapshot 90) "u1" []).reason ≡ in_rollout))
widening_adds_example = widening_adds platform "u1" [] snapshot 30 90 (omega arith)

-- The context has no plan.
plan_absent : actual_value (some "plan") "u1" [] ≡ none
unfolding actual_value
plan_absent = refl

u1_inside : bucket_for platform "dark-mode" "u1" < 90
unfolding bucket_for from_bytes
u1_inside = omega arith

malformed_rules_serve_value_example :
    evaluate platform (at_percentage snapshot 90) "u1" []
    ≡ serves snapshot (some (bool true)) in_rollout
malformed_rules_serve_value_example =
    malformed_rules_serve_value platform "u1" [] (at_percentage snapshot 90) refl refl
      (no_actual plan_absent, tt) u1_inside

abbrev on_plan : Context
on_plan = ("plan", scalar (str "pro-annual")) ∷ []

plan_present : actual_value (some "plan") "u1" on_plan ≡ some (scalar (str "pro-annual"))
unfolding actual_value
plan_present = refl

text_operators_example :
    TextOperators platform "plan" "u1" on_plan (str "pro" ∷ []) (bool true) "pro-annual"
text_operators_example =
    text_operators platform "plan" "u1" on_plan (str "pro" ∷ []) (bool true) "pro-annual"
      plan_present

require_tenant-owner_example :
    In alice db.api_keys
    × (alice.tenant_id ≡ 1)
    × ((raw : String) × (some "ffs_a" ≡ some raw) × (alice.key_hash ≡ hash_api_key platform raw))
require_tenant-owner_example = require_tenant-owner platform db 1 (some "ffs_a") alice alice_owns

abbrev guess : String
guess = "guess"

stranger : some "é" ≢ some services.settings.admin_api_key
stranger e = cc (e)

abbrev registration : Call
registration = post_tenant (record { name = "Core" }) 3 31 "t" 9

handle-SameTenants_example :
    SameTenants db (handle services (some "é") registration world).1.database
handle-SameTenants_example = handle-SameTenants services (some "é") registration world stranger

payload_valid : check_flag_create new_payload ≡ true
unfolding check_flag_create
payload_valid = refl

abbrev user : String
user = "u:1"

valid_keys_hash_apart_example : (new_payload.key ≡ new_payload.key) × (user ≡ user)
valid_keys_hash_apart_example =
    valid_keys_hash_apart new_payload new_payload user user payload_valid payload_valid refl

no_metrics-IsConsistent : IsConsistent no_metrics
no_metrics-IsConsistent = record {
  latencies = omega arith;
  evaluations = omega arith;
  errors = λ label. omega arith;
}

record_request-IsConsistent_example :
    IsConsistent (record_request "t" "/api/v1/evaluate" 503 no_metrics)
record_request-IsConsistent_example =
    record_request-IsConsistent "t" "/api/v1/evaluate" 503 no_metrics no_metrics-IsConsistent

abbrev cog : TenantCreated
cog = record { id = 3; name = "Cog"; created_at = 9; api_key = "ffs_c" }

abbrev db_with_cog : Database
db_with_cog = record db {
  tenants = db.tenants ++ record { id = 3; name = "Cog"; created_at = 9; updated_at = 9 } ∷ [];
  api_keys = db.api_keys ++ new_key 13 3 (hash_api_key platform "ffs_c") 9 ∷ [];
}

cog_created : create_tenant platform (record { name = "Cog" }) 3 13 "c" 9 db ≡ (ok cog, db_with_cog)
unfolding create_tenant
cog_created = refl

create_tenant-require_tenant_example :
    require_tenant platform db_with_cog 3 (some "ffs_c")
    ≡ ok (new_key 13 3 (hash_api_key platform "ffs_c") 9)
create_tenant-require_tenant_example =
    create_tenant-require_tenant platform (record { name = "Cog" }) 3 13 "c" 9 db cog_created

-- The defaults pass the validators, also where they serve production.
defaults_valid : check_settings (record default_settings { app_env = production_env }) ≡ true
unfolding check_settings default_settings
defaults_valid = refl

in_production : is_production settings ≡ true
unfolding is_production
in_production = refl

abbrev calls : List ClientCall
calls = getting ∷ getting ∷ closing ∷ closing ∷ getting ∷ []

client_calls-closed_example :
    IsTidy (client_calls calls no_connection)
    × ((close_client (client_calls calls no_connection)).open_clients ≡ [])
client_calls-closed_example = client_calls-closed calls
