-- ===== src/Routers/Evaluate/Compiled.antt =====
-- The compiled flag set of `_load_flag_set` (app/routers/evaluate.py) under writes to other rows.
use thinking_feature_flag_se.Common.{
  ◌≡◌, ◌≢◌, ◌⊎◌, inl, inr, refl, sym, ap, ◌∙◌, Bool, true, false, ◌&&◌, List, [], ◌∷◌, ◌++◌, map,
  arith, ◌==◌, nat_eq, All, All-map, select, Bool-cases, eq_of_test,
}
use thinking_feature_flag_se.Values.{Environment, environment_eq}
use thinking_feature_flag_se.Models.{
  Uuid, Flag, FlagEnvironmentConfig, is_config, update_flag_row, update_config_row,
}
use thinking_feature_flag_se.Models.Integrity.{OwnsId}
use thinking_feature_flag_se.Routers.Evaluate.{is_active, snapshot_of, joined, join}

-- Another tenant's set does not see a new version of a flag.
pub join-update_flag_row :
    (tenant_id other : Uuid) (environment : Environment) (configs : List FlagEnvironmentConfig)
    (new : Flag) (flags : List Flag)
    → new.tenant_id ≡ tenant_id
    → other ≢ tenant_id
    → OwnsId tenant_id new.id flags
    → join other environment configs (update_flag_row new flags)
      ≡ join other environment configs flags
unfolding join update_flag_row
join-update_flag_row t other environment configs new [] e ne h = refl
join-update_flag_row t other environment configs new (f ∷ flags) e ne h =
    ground (arith, h.0, join-update_flag_row t other environment configs new flags e ne h.1)

pub is_config-eq :
    (id : Uuid) (environment : Environment) (c : FlagEnvironmentConfig)
    → is_config id environment c ≡ true
    → (c.flag_id ≡ id) × (c.environment ≡ environment)
is_config-eq id environment c h =
    (ground arith, eq_of_test c.environment environment (ground arith))

select-update_config_row :
    (id : Uuid) (environment : Environment) (new : FlagEnvironmentConfig)
    (configs : List FlagEnvironmentConfig)
    → is_config id environment new ≡ false
    → select (is_config id environment) (update_config_row new configs)
      ≡ select (is_config id environment) configs
unfolding update_config_row
select-update_config_row id environment new [] h = refl
select-update_config_row id environment new (c ∷ configs) h =
    elim (Bool-cases (is_config new.flag_id new.environment c)) [
      | inr other ↦ rw (other, select-update_config_row id environment new configs h)
      | inl same ↦
          let (id_same, environment_same) = is_config-eq new.flag_id new.environment c same in
          let missed : is_config id environment c ≡ false = ground arith in
          rw (same, h, missed) (select-update_config_row id environment new configs h)
    ]

joined-update_config_row :
    (f : Flag) (environment : Environment) (new : FlagEnvironmentConfig)
    (configs : List FlagEnvironmentConfig)
    → is_config f.id environment new ≡ false
    → joined environment (update_config_row new configs) f ≡ joined environment configs f
joined-update_config_row f environment new configs h =
    ap (map (snapshot_of f)) (select-update_config_row f.id environment new configs h)

-- A config that belongs to the tenant, and stands in another environment if the flag is the tenant's
-- too, is not joined with the flag.
not_joined :
    (tenant_id other : Uuid) (environment : Environment) (c : FlagEnvironmentConfig) (f : Flag)
    → (other ≢ tenant_id) ⊎ (environment ≢ c.environment)
    → (f.id ≡ c.flag_id → f.tenant_id ≡ tenant_id)
    → f.tenant_id ≡ other
    → is_config f.id environment c ≡ false
not_joined t other environment c f ne owned mine =
    elim (Bool-cases (is_config f.id environment c)) [
      | inr missed ↦ missed
      | inl hit ↦
          let (id_same, environment_same) = is_config-eq f.id environment c hit in
          elim ne [
            | inl another ↦ absurd (another (sym mine ∙ owned (sym id_same)))
            | inr elsewhere ↦ absurd (elsewhere (sym environment_same))
          ]
    ]

-- Another tenant's set, or that of another environment, does not see a new version of a config.
pub join-update_config_row :
    (tenant_id other : Uuid) (environment : Environment) (new : FlagEnvironmentConfig)
    (configs : List FlagEnvironmentConfig) (flags : List Flag)
    → (other ≢ tenant_id) ⊎ (environment ≢ new.environment)
    → OwnsId tenant_id new.flag_id flags
    → join other environment (update_config_row new configs) flags
      ≡ join other environment configs flags
unfolding join
join-update_config_row t other environment new configs [] ne h = refl
join-update_config_row t other environment new configs (f ∷ flags) ne h =
    elim (Bool-cases (f.tenant_id == other && is_active f)) [
      | inr skipped ↦
          rw skipped (join-update_config_row t other environment new configs flags ne h.1)
      | inl taken ↦
          rw
            (
              taken,
              joined-update_config_row f environment new configs
                  (not_joined t other environment new f ne h.0 (ground arith)),
            )
            (ap (λ l. joined environment configs f ++ l)
              (join-update_config_row t other environment new configs flags ne h.1))
    ]

pub select-append :
    {A : Type 0} (keep : A → Bool) (xs ys : List A)
    → All (λ y. keep y ≡ false) ys
    → select keep (xs ++ ys) ≡ select keep xs
select-append keep [] [] h = refl
select-append keep [] (y ∷ ys) h = rw (h.0) (select-append keep [] ys h.1)
select-append keep (x ∷ xs) ys h = rw (select-append keep xs ys h)

-- Another tenant's set does not see a new flag and its configs.
pub join-append :
    (other : Uuid) (environment : Environment) (configs : List FlagEnvironmentConfig) (new : Flag)
    (added : List FlagEnvironmentConfig) (flags : List Flag)
    → other ≢ new.tenant_id
    → All (λ (g : Flag). g.id ≢ new.id) flags
    → All (λ (c : FlagEnvironmentConfig). c.flag_id ≡ new.id) added
    → join other environment (configs ++ added) (flags ++ new ∷ [])
      ≡ join other environment configs flags
unfolding join
join-append other environment configs new added [] ne fresh own = ground arith
join-append other environment configs new added (f ∷ flags) ne fresh own =
    let unjoined =
      select-append (is_config f.id environment) configs added
        (All-map (λ c e. ground (arith, fresh.0)) added own) in
    let rest = join-append other environment configs new added flags ne fresh.1 own in
    rw (rest, unjoined)
