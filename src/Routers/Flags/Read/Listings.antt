-- ===== src/Routers/Flags/Read/Listings.antt =====
-- Which flags `list_flags` returns, in which order, and what it shows of them (app/routers/flags.py).
use thinking_feature_flag_se.Common.{
  ◌≡◌, ◌≢◌, ap, refl, String, Bool, true, false, not, ◌&&◌, Option, none, some, List, [], ◌∷◌, map,
  select, arith, order_by, IsListing, order_by-IsListing, ◌==◌, nat_eq, Bool-cases, inl, inr,
}
use thinking_feature_flag_se.Values.{Environment, environment_eq}
use thinking_feature_flag_se.Models.{Uuid, ApiKey, Flag, FlagEnvironmentConfig, Database}
use thinking_feature_flag_se.Services.{Services}
use thinking_feature_flag_se.Routers.Evaluate.{is_active}
use thinking_feature_flag_se.Routers.Flags.Responses.{
  FlagConfigResponse, FlagResponse, config_response, belongs_to, response_of,
}
use thinking_feature_flag_se.Routers.Flags.Read.{
  StatusFilter, active, archived, every, passes, narrow, list_flags,
}

-- The flags that a status filter asks for.
abbrev pub Shows : StatusFilter → Flag → Type 0
Shows active f = f.archived_at ≡ none
Shows archived f = f.archived_at ≢ none
Shows every f = Unit

-- A flag of the tenant that the filter asks for.
abbrev pub IsAsked : Uuid → StatusFilter → Flag → Type 0
IsAsked tenant_id status_filter f = (f.tenant_id ≡ tenant_id) × Shows status_filter f

-- A config of a flag in an environment, if one is given.
abbrev pub is_shown : Option Environment → Flag → FlagEnvironmentConfig → Bool
is_shown none flag c = c.flag_id == flag.id
is_shown (some environment) flag c = c.flag_id == flag.id && c.environment == environment

abbrev pub shown_config : FlagEnvironmentConfig → FlagConfigResponse
shown_config c = record {
  environment = c.environment;
  enabled = c.enabled;
  value = c.value;
  rollout_percentage = c.rollout_percentage;
  targeting_rules = c.targeting_rules;
  updated_at = c.updated_at;
}

-- What a listing says of a flag: all its fields but the tenant, and its configs in the environment.
abbrev pub shown : Option Environment → Database → Flag → FlagResponse
shown environment db flag = record {
  id = flag.id;
  key = flag.key;
  name = flag.name;
  description = flag.description;
  type = flag.type;
  default_value = flag.default_value;
  archived_at = flag.archived_at;
  created_at = flag.created_at;
  updated_at = flag.updated_at;
  configs = map shown_config (select (is_shown environment flag) db.configs);
}

is_active-none : (f : Flag) → is_active f ≡ true → f.archived_at ≡ none
is_active-none f h = ground arith

passes-Shows :
    (status_filter : StatusFilter) (f : Flag)
    → passes status_filter f ≡ true
    → Shows status_filter f
passes-Shows active f h = ground arith
passes-Shows archived f h = λ e. ground arith
passes-Shows every f h = tt

passes-other :
    (status_filter : StatusFilter) (f : Flag)
    → passes status_filter f ≡ false
    → ¬ Shows status_filter f
passes-other active f h e = ground arith
passes-other archived f h e = e (is_active-none f (ground arith))
passes-other every f h e = cc (h)

configs-select :
    (environment : Environment) (flag : Flag) (configs : List FlagEnvironmentConfig)
    → select
        (λ (c : FlagConfigResponse). c.environment == environment)
        (map config_response (select (belongs_to flag) configs))
      ≡ map shown_config (select (is_shown (some environment) flag) configs)
configs-select environment flag [] = refl
configs-select environment flag (c ∷ configs) =
    let rest = configs-select environment flag configs in
    elim (Bool-cases (c.flag_id == flag.id)) [
      | inr other ↦ rw other rest
      | inl own ↦ rw own (elim (Bool-cases (c.environment == environment)) [
        | inl here ↦ rw here (ap (λ l. shown_config c ∷ l) rest)
        | inr elsewhere ↦ rw elsewhere rest
      ])
    ]

narrow-shown :
    (environment : Option Environment) (db : Database) (flag : Flag)
    → narrow environment (response_of db flag) ≡ shown environment db flag
unfolding response_of
narrow-shown none db flag = refl
narrow-shown (some environment) db flag =
    ap (λ l. record (shown (some environment) db flag) { configs = l })
      (configs-select environment flag db.configs)

map-narrow :
    (environment : Option Environment) (db : Database) (flags : List Flag)
    → map (λ flag. narrow environment (response_of db flag)) flags
      ≡ map (shown environment db) flags
map-narrow environment db [] = refl
map-narrow environment db (flag ∷ flags) =
    rw (narrow-shown environment db flag)
      (ap (λ l. shown environment db flag ∷ l) (map-narrow environment db flags))

module _ (services : Services)
    (total : (s t : String) → services.collates s t ≡ false → services.collates t s ≡ true)
    (chain : (s t u : String)
      → services.collates s t ≡ true
      → services.collates t u ≡ true
      → services.collates s u ≡ true) where
  abbrev pub InOrder : Flag → Flag → Type 0
  InOrder f g = services.collates f.key g.key ≡ true

  keep-IsAsked :
      (tenant_id : Uuid) (status_filter : StatusFilter) (f : Flag)
      → (f.tenant_id == tenant_id && passes status_filter f) ≡ true
      → IsAsked tenant_id status_filter f
  keep-IsAsked tenant_id status_filter f h =
      (ground arith, passes-Shows status_filter f (ground arith))

  keep-other :
      (tenant_id : Uuid) (status_filter : StatusFilter) (f : Flag)
      → not (f.tenant_id == tenant_id && passes status_filter f) ≡ true
      → ¬ IsAsked tenant_id status_filter f
  keep-other tenant_id status_filter f h (owned, shows) =
      passes-other status_filter f (ground arith) shows

  -- Where Postgres collates text in a total order: a listing has one entry for each of the tenant's
  -- flags that the status filter asks for (those not archived, those archived, or all) and for no
  -- other, in the order of their keys; an entry has the fields of its flag, and those of the flag's
  -- configs that are in the given environment, or all of them if none is given.
  pub list_flags-IsListing :
      (api_key : ApiKey) (environment : Option Environment) (status_filter : StatusFilter)
      (db : Database)
      → (found : List Flag) × (list_flags services api_key environment status_filter db
          ≡ map (shown environment db) found)
        × IsListing (IsAsked api_key.tenant_id status_filter) InOrder found db.flags
  unfolding list_flags
  list_flags-IsListing api_key environment status_filter db =
      let before : Flag → Flag → Bool = λ f g. services.collates f.key g.key in
      let keep : Flag → Bool = λ f. f.tenant_id == api_key.tenant_id && passes status_filter f in
      (
        order_by before (select keep db.flags),
        map-narrow environment db (order_by before (select keep db.flags)),
        order_by-IsListing before InOrder (λ f g h. h) (λ f g h. total f.key g.key h)
            (λ f g h. chain f.key g.key h.key) keep (IsAsked api_key.tenant_id status_filter)
            (keep-IsAsked api_key.tenant_id status_filter)
            (keep-other api_key.tenant_id status_filter) db.flags,
      )
