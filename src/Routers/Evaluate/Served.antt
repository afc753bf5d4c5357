-- ===== src/Routers/Evaluate/Served.antt =====
-- What the compiled flag set of a tenant holds (`_load_flag_set` of app/routers/evaluate.py).
use thinking_feature_flag_se.Common.{
  ◌≡◌, ◌↔◌, refl, sym, subst, eq_self, Bool, true, false, All-at, ◌&&◌, none, List, [], ◌∷◌, ◌++◌,
  map, arith, All, All-append, In, here, there, select, Bool-cases, inl, inr, ◌==◌, nat_eq,
}
use thinking_feature_flag_se.Values.{Environment, environment_eq, flag_type_value}
use thinking_feature_flag_se.Evaluation.{FlagSnapshot}
use thinking_feature_flag_se.Models.{Uuid, Flag, FlagEnvironmentConfig, Database, is_config}
use thinking_feature_flag_se.Routers.Evaluate.{snapshot_of, is_active, joined, join, compile}
use thinking_feature_flag_se.Routers.Evaluate.Compiled.{is_config-eq}

-- A snapshot is that of an active flag of the tenant with a config of the flag in the environment: the
-- key, the type and the default value are the flag's, the switch, the value, the rollout and the rules
-- are the config's, and it is not marked as archived.
pub record IsServed (db : Database) (tenant_id : Uuid) (environment : Environment)
    (s : FlagSnapshot) : Type 0 where
  pub flag : Flag
  pub config : FlagEnvironmentConfig
  pub flag_place : In flag db.flags
  pub config_place : In config db.configs
  pub same_tenant : flag.tenant_id ≡ tenant_id
  pub active : flag.archived_at ≡ none
  pub same_flag : config.flag_id ≡ flag.id
  pub same_environment : config.environment ≡ environment
  pub compiled : s ≡ record {
    key = flag.key;
    type = flag_type_value flag.type;
    default_value = flag.default_value;
    enabled = config.enabled;
    value = config.value;
    rollout_percentage = config.rollout_percentage;
    targeting_rules = config.targeting_rules;
    is_archived = false;
  }

All-map-select {ℓ κ ι} :
    {A : Type ℓ} {B : Type κ} (P : B → Type ι) (f : A → B) (keep : A → Bool) (xs : List A)
    → ((x : A) → In x xs → keep x ≡ true → P (f x))
    → All P (map f (select keep xs))
All-map-select P f keep [] h = tt
All-map-select P f keep (x ∷ xs) h =
    let rest = All-map-select P f keep xs (λ y place kept. h y (there place) kept) in
    elim (Bool-cases (keep x)) [
      | inl kept ↦ rw kept (h x here kept, rest)
      | inr dropped ↦ rw dropped rest
    ]

is_active-eq : (flag : Flag) → is_active flag ≡ true → flag.archived_at ≡ none
is_active-eq flag e = ground arith

module _ (db : Database) (tenant_id : Uuid) (environment : Environment) where
  joined-IsServed :
      (flag : Flag)
      → In flag db.flags
      → flag.tenant_id ≡ tenant_id
      → flag.archived_at ≡ none
      → All (IsServed db tenant_id environment) (joined environment db.configs flag)
  unfolding snapshot_of
  joined-IsServed flag place owned active =
      All-map-select (IsServed db tenant_id environment) (snapshot_of flag)
        (is_config flag.id environment) db.configs
        (λ config config_place kept.
          let (same_id, same_environment) = is_config-eq flag.id environment config kept in
          record {
            flag = flag;
            config = config;
            flag_place = place;
            config_place = config_place;
            same_tenant = owned;
            active = active;
            same_flag = same_id;
            same_environment = same_environment;
            compiled = refl;
          })

  join-IsServed :
      (flags : List Flag)
      → ((flag : Flag) → In flag flags → In flag db.flags)
      → All (IsServed db tenant_id environment) (join tenant_id environment db.configs flags)
  unfolding join
  join-IsServed [] inside = tt
  join-IsServed (flag ∷ flags) inside =
      let rest = join-IsServed flags (λ f place. inside f (there place)) in
      elim (Bool-cases (flag.tenant_id == tenant_id && is_active flag)) [
        | inr skipped ↦ rw skipped rest
        | inl taken ↦ rw taken (
            All-append _ (joined environment db.configs flag) _
              (joined-IsServed flag (inside flag here) (ground arith)
                (is_active-eq flag (ground arith)))
              rest)
      ]

  -- The compiled set of a tenant and an environment holds snapshots of active flags of that tenant
  -- alone.
  pub compile-IsServed : All (IsServed db tenant_id environment) (compile db tenant_id environment)
  unfolding compile
  compile-IsServed = join-IsServed db.flags (λ flag place. place)

pub In-append_right {ℓ} :
    {A : Type ℓ} {a : A} (xs : List A) {ys : List A} → In a ys → In a (xs ++ ys)
In-append_right [] m = m
In-append_right (x ∷ xs) m = there (In-append_right xs m)

In-append_left {ℓ} : {A : Type ℓ} {a : A} {xs : List A} (ys : List A) → In a xs → In a (xs ++ ys)
In-append_left ys here = here
In-append_left ys (there m) = there (In-append_left ys m)

In-map-select {ℓ κ} :
    {A : Type ℓ} {B : Type κ} (f : A → B) (keep : A → Bool) {a : A} {xs : List A}
    → In a xs
    → keep a ≡ true
    → In (f a) (map f (select keep xs))
In-map-select f keep {a} here kept = rw kept here
In-map-select f keep {xs = x ∷ xs} (there m) kept =
    let rest = In-map-select f keep m kept in
    elim (Bool-cases (keep x)) [ inl e ↦ rw e (there rest) | inr e ↦ rw e rest ]

is_active-true : (flag : Flag) → flag.archived_at ≡ none → is_active flag ≡ true
is_active-true flag e = ground arith

module _ (db : Database) (environment : Environment) (flag : Flag) (config : FlagEnvironmentConfig)
    (active : flag.archived_at ≡ none) (config_place : In config db.configs)
    (same_flag : config.flag_id ≡ flag.id)
    (same_environment : config.environment ≡ environment) where
  In-joined : In (snapshot_of flag config) (joined environment db.configs flag)
  In-joined =
      In-map-select (snapshot_of flag) (is_config flag.id environment) config_place
        (rw (same_flag, same_environment) (rw (eq_self flag.id, eq_self environment) refl))

  In-join :
      {flags : List Flag}
      → In flag flags
      → In (snapshot_of flag config) (join flag.tenant_id environment db.configs flags)
  unfolding join
  In-join {flags = []} m = elim m [ ]
  In-join {flags = f ∷ flags} here =
      rw (eq_self flag.tenant_id, is_active-true flag active)
        (In-append_left (join flag.tenant_id environment db.configs flags) In-joined)
  In-join {flags = f ∷ flags} (there m) =
      let rest = In-join m in
      elim (Bool-cases (f.tenant_id == flag.tenant_id && is_active f)) [
        | inl taken ↦ rw taken (In-append_right (joined environment db.configs f) rest)
        | inr skipped ↦ rw skipped rest
      ]

  -- The compiled set of a tenant holds every active flag with its config in the environment.
  pub In-compile :
      In flag db.flags → In (snapshot_of flag config) (compile db flag.tenant_id environment)
  unfolding compile
  In-compile place = In-join place

-- The compiled set of a tenant and an environment holds a snapshot exactly if it is that of an active
-- flag of the tenant with the flag's config in the environment: its key, its type and its default
-- value are the flag's, and its switch, its value, its rollout and its rules are the config's.
pub In-compile_iff :
    (db : Database) (tenant_id : Uuid) (environment : Environment) (s : FlagSnapshot)
    → In s (compile db tenant_id environment) ↔ IsServed db tenant_id environment s
unfolding snapshot_of
In-compile_iff db tenant_id environment s = (
  λ place.
      All-at (IsServed db tenant_id environment) place (compile-IsServed db tenant_id environment),
  λ is.
      let found =
        In-compile db environment is.flag is.config is.active is.config_place is.same_flag
          is.same_environment is.flag_place in
      subst (λ t. In s (compile db t environment)) is.same_tenant
        (subst (λ x. In x (compile db is.flag.tenant_id environment)) (sym is.compiled) found),
)
