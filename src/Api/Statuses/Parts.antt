-- ===== src/Api/Statuses/Parts.antt =====
-- The statuses of what the handlers are made of: the dependencies, the checks and the responses
-- (app/security.py, app/routers).
use thinking_feature_flag_se.Common.{
  ℕ, ◌≡◌, refl, String, Bool, true, Option, none, some, List, [], ◌∷◌, nat_eq, string_eq, member,
  arith,
}
use thinking_feature_flag_se.Models.{Uuid, Database}
use thinking_feature_flag_se.Outcome.{
  Outcome, ok, raised, http_exception, invalid_request, unhandled, ◌>>=◌,
}
use thinking_feature_flag_se.Evaluation.{Platform, Evaluation}
use thinking_feature_flag_se.Values.{Environment, FlagValue, FlagType}
use thinking_feature_flag_se.Schemas.{FlagUpdate}
use thinking_feature_flag_se.Security.{authenticate, require_tenant, require_admin}
use thinking_feature_flag_se.Routers.Evaluate.{response_for, flag_values, dict_from}
use thinking_feature_flag_se.Routers.Flags.Responses.{get_flag_or_404}
use thinking_feature_flag_se.Routers.Flags.Changes.{
  requested_flag_changes, requested_config_changes,
}
use thinking_feature_flag_se.Routers.Flags.Update.{}
use thinking_feature_flag_se.Api.{Body, respond_with}

abbrev pub known : List ℕ
known = 401 ∷ 403 ∷ 404 ∷ 409 ∷ 422 ∷ []

-- If it raises an `HTTPException`, the status is one of five.
abbrev pub is_known {ℓ} : {A : Type ℓ} → Outcome A → Bool
is_known (ok a) = true
is_known (raised (http_exception status text)) = member status known
is_known (raised invalid_request) = true
is_known (raised unhandled) = true

pub >>=-known {ℓ κ} :
    {A : Type ℓ} {B : Type κ} (m : Outcome A) (f : A → Outcome B)
    → is_known m ≡ true
    → ((a : A) → is_known (f a) ≡ true)
    → is_known (m >>= f) ≡ true
>>=-known (ok a) f h rest = rest a
>>=-known (raised (http_exception status text)) f h rest = h
>>=-known (raised invalid_request) f h rest = h
>>=-known (raised unhandled) f h rest = h

pub respond_with-known :
    {A : Type 0} (body : A → Body) (m : Outcome A)
    → is_known m ≡ true
    → is_known (respond_with body m) ≡ true
respond_with-known body (ok a) h = refl
respond_with-known body (raised (http_exception status text)) h = h
respond_with-known body (raised invalid_request) h = refl
respond_with-known body (raised unhandled) h = refl

module _ (platform : Platform) (db : Database) (x_api_key : Option String) where
  pub authenticate_known : is_known (authenticate platform db x_api_key) ≡ true
  unfolding authenticate
  authenticate_known = ground arith

  pub require_tenant_known :
      (tenant_id : Uuid) → is_known (require_tenant platform db tenant_id x_api_key) ≡ true
  unfolding require_tenant
  require_tenant_known tenant_id =
      >>=-known (authenticate platform db x_api_key) _ authenticate_known (λ k. ground arith)

pub require_admin_known :
    (admin : String) (x_api_key : Option String) → is_known (require_admin admin x_api_key) ≡ true
unfolding require_admin
require_admin_known admin x_api_key = ground arith

pub get_flag_known :
    (db : Database) (tenant_id : Uuid) (flag_key : String)
    → is_known (get_flag_or_404 db tenant_id flag_key) ≡ true
unfolding get_flag_or_404
get_flag_known db tenant_id flag_key = ground arith

pub requested_flag_known :
    (payload : FlagUpdate) (type : FlagType) → is_known (requested_flag_changes payload type) ≡ true
unfolding requested_flag_changes
requested_flag_known payload type = ground arith

pub requested_config_known :
    (payload : FlagUpdate) (type : FlagType)
    → is_known (requested_config_changes payload type) ≡ true
unfolding requested_config_changes
requested_config_known payload type = ground arith

flag_values_known : (items : List (String × Option FlagValue)) → is_known (flag_values items) ≡ true
unfolding flag_values
flag_values_known [] = refl
flag_values_known ((k, none) ∷ items) = refl
flag_values_known ((k, some v) ∷ items) =
    >>=-known (flag_values items) _ (flag_values_known items) (λ rest. refl)

pub response_for_known :
    (user_id : String) (environment : Environment) (results : List Evaluation)
    → is_known (response_for user_id environment results) ≡ true
unfolding response_for
response_for_known user_id environment results =
    >>=-known (flag_values (dict_from results [])) _ (flag_values_known (dict_from results []))
      (λ flags. refl)
