-- ===== src/Models/Integrity.antt =====
-- The well-formedness of the tables (app/models.py and the validators of app/schemas.py), and what
-- the row updates do to it.
use thinking_feature_flag_se.Common.{
  ◌≤◌, ◌≡◌, refl, sym, ap, subst, ◌≢◌, ◌⊎◌, inl, inr, String, true, false, some, List, [], ◌∷◌,
  arith, ◌==◌, nat_eq, string_eq, if◌then◌else◌, All, All-at, In, here, there, Bool-cases,
  eq_of_test, first-In,
}
use thinking_feature_flag_se.Values.{Environment, environment_eq, value_matches_type}
use thinking_feature_flag_se.Models.{
  Uuid, Flag, FlagEnvironmentConfig, Database, is_flag, find_flag, is_config, find_config,
  update_flag_row, update_config_row,
}

abbrev pub DistinctIds : List Flag → Type 0
DistinctIds [] = Unit
DistinctIds (f ∷ flags) = All (λ (g : Flag). g.id ≢ f.id) flags × DistinctIds flags

-- `uq_flags_tenant_key`
abbrev pub SameKey : Flag → Flag → Type 0
SameKey f g = (f.tenant_id ≡ g.tenant_id) × (f.key ≡ g.key)

abbrev pub DistinctKeys : List Flag → Type 0
DistinctKeys [] = Unit
DistinctKeys (f ∷ flags) = All (λ g. ¬ (SameKey g f)) flags × DistinctKeys flags

-- The primary key of the configs: a flag has one per environment.
abbrev pub SamePlace : FlagEnvironmentConfig → FlagEnvironmentConfig → Type 0
SamePlace c d = (c.flag_id ≡ d.flag_id) × (c.environment ≡ d.environment)

abbrev pub OnePerPlace : List FlagEnvironmentConfig → Type 0
OnePerPlace [] = Unit
OnePerPlace (c ∷ configs) = All (λ d. ¬ (SamePlace d c)) configs × OnePerPlace configs

-- The default of a flag has the flag's type.
abbrev pub IsTyped : Flag → Type 0
IsTyped f = value_matches_type (some f.default_value) f.type ≡ true

-- A config belongs to a flag of its own tenant, its value has the type of that flag, and its
-- percentage is one.
pub record IsOwned (flags : List Flag) (c : FlagEnvironmentConfig) : Type 0 where
  pub owner : Flag
  pub place : In owner flags
  pub same_id : owner.id ≡ c.flag_id
  pub same_tenant : owner.tenant_id ≡ c.tenant_id
  pub value_typed : value_matches_type (some c.value) owner.type ≡ true
  pub in_range : c.rollout_percentage ≤ 100

pub record IsSound (db : Database) : Type 0 where
  pub distinct_ids : DistinctIds db.flags
  pub distinct_keys : DistinctKeys db.flags
  pub typed : All IsTyped db.flags
  pub owned : All (IsOwned db.flags) db.configs
  pub one_per_place : OnePerPlace db.configs

-- Of two rows with one id, both are the same.
pub DistinctIds-eq :
    {f g : Flag} {flags : List Flag}
    → DistinctIds flags
    → In f flags
    → In g flags
    → f.id ≡ g.id
    → f ≡ g
DistinctIds-eq h here here e = refl
DistinctIds-eq h here (there m) e = absurd (All-at _ m h.0 (sym e))
DistinctIds-eq h (there m) here e = absurd (All-at _ m h.0 e)
DistinctIds-eq h (there m) (there n) e = DistinctIds-eq h.1 m n e

pub DistinctKeys-eq :
    {f g : Flag} {flags : List Flag}
    → DistinctKeys flags
    → In f flags
    → In g flags
    → SameKey f g
    → f ≡ g
DistinctKeys-eq h here here e = refl
DistinctKeys-eq h here (there m) e = absurd (All-at _ m h.0 (sym e.0, sym e.1))
DistinctKeys-eq h (there m) here e = absurd (All-at _ m h.0 e)
DistinctKeys-eq h (there m) (there n) e = DistinctKeys-eq h.1 m n e

pub OnePerPlace-eq :
    {c d : FlagEnvironmentConfig} {configs : List FlagEnvironmentConfig}
    → OnePerPlace configs
    → In c configs
    → In d configs
    → SamePlace c d
    → c ≡ d
OnePerPlace-eq h here here e = refl
OnePerPlace-eq h here (there m) e = absurd (All-at _ m h.0 (sym e.0, sym e.1))
OnePerPlace-eq h (there m) here e = absurd (All-at _ m h.0 e)
OnePerPlace-eq h (there m) (there n) e = OnePerPlace-eq h.1 m n e

-- All rows with the id of a row belong to its tenant.
abbrev pub OwnsId : Uuid → Uuid → List Flag → Type 0
OwnsId tenant_id id flags = All (λ (g : Flag). g.id ≡ id → g.tenant_id ≡ tenant_id) flags

pub All-of_In {ℓ κ} :
    {A : Type ℓ} (P : A → Type κ) (xs : List A) → ((a : A) → In a xs → P a) → All P xs
All-of_In P [] h = tt
All-of_In P (x ∷ xs) h = (h x here, All-of_In P xs (λ a m. h a (there m)))

pub DistinctIds-OwnsId :
    {f : Flag} {flags : List Flag} → DistinctIds flags → In f flags → OwnsId f.tenant_id f.id flags
DistinctIds-OwnsId {f} {flags} h m =
    All-of_In _ flags (λ g n e. ap (λ (x : Flag). x.tenant_id) (DistinctIds-eq h n m e))

-- What the query for a flag finds is a row of the tenant, with the key.
pub find_flag-In :
    (tenant_id : Uuid) (flag_key : String) (db : Database) {f : Flag}
    → find_flag tenant_id flag_key db ≡ some f
    → In f db.flags × (f.tenant_id ≡ tenant_id) × (f.key ≡ flag_key)
unfolding find_flag
find_flag-In tenant_id flag_key db {f} e =
    let (place, test) = first-In (is_flag tenant_id flag_key) db.flags e in
    (place, ground arith, eq_of_test f.key flag_key (ground arith))

pub find_config-In :
    (flag_id : Uuid) (environment : Environment) (db : Database) {c : FlagEnvironmentConfig}
    → find_config flag_id environment db ≡ some c
    → In c db.configs × (c.flag_id ≡ flag_id) × (c.environment ≡ environment)
unfolding find_config
find_config-In flag_id environment db {c} e =
    let (place, test) = first-In (is_config flag_id environment) db.configs e in
    (place, ground arith, eq_of_test c.environment environment (ground arith))

-- An updated row stays where it was.
pub In-update_flag_row :
    (flag : Flag) {f : Flag} {flags : List Flag}
    → In f flags
    → In (if f.id == flag.id then flag else f) (update_flag_row flag flags)
unfolding update_flag_row
In-update_flag_row flag here = here
In-update_flag_row flag (there m) = there (In-update_flag_row flag m)

pub In-update_self :
    (flag : Flag) {f : Flag} {flags : List Flag}
    → In f flags
    → f.id ≡ flag.id
    → In flag (update_flag_row flag flags)
In-update_self flag {f} {flags} m e =
    let test : (f.id == flag.id) ≡ true = ground arith in
    let chosen : (if f.id == flag.id then flag else f) ≡ flag = rw test in
    subst (λ x. In x (update_flag_row flag flags)) chosen (In-update_flag_row flag m)

-- A property of all rows survives an update if the new row inherits it from the row that it replaces.
module _ (P : Flag → Type 0) (flag : Flag) where
  pub All-update_flag_row :
      (flags : List Flag)
      → ((g : Flag) → In g flags → g.id ≡ flag.id → P g → P flag)
      → All P flags
      → All P (update_flag_row flag flags)
  unfolding update_flag_row
  All-update_flag_row [] inherits h = tt
  All-update_flag_row (f ∷ flags) inherits h = (
    pick (Bool-cases (f.id == flag.id)),
    All-update_flag_row flags (λ g m. inherits g (there m)) h.1,
  )
    where
      pick :
          (f.id == flag.id ≡ true) ⊎ (f.id == flag.id ≡ false)
          → P (if f.id == flag.id then flag else f)
      pick (inl e) = rw e (inherits f here (eq_of_test f.id flag.id e) h.0)
      pick (inr e) = rw e (h.0)

module _ (P : FlagEnvironmentConfig → Type 0) (config : FlagEnvironmentConfig)
    (holds : P config) where
  pub All-update_config_row :
      (configs : List FlagEnvironmentConfig)
      → All P configs
      → All P (update_config_row config configs)
  unfolding update_config_row
  All-update_config_row [] h = tt
  All-update_config_row (c ∷ configs) h = (
    pick (Bool-cases (is_config config.flag_id config.environment c)),
    All-update_config_row configs h.1,
  )
    where
      pick :
          (is_config config.flag_id config.environment c ≡ true)
            ⊎ (is_config config.flag_id config.environment c ≡ false)
          → P (if is_config config.flag_id config.environment c then config else c)
      pick (inl e) = rw e holds
      pick (inr e) = rw e (h.0)
