-- ===== src/Models/Preserved.antt =====
-- The writes of the handlers (app/routers/flags.py) and the well-formedness of the tables.
use thinking_feature_flag_se.Common.{
  ◌≡◌, refl, sym, ◌∙◌, subst, ◌≢◌, inl, inr, List, [], ◌∷◌, arith, ◌==◌, nat_eq, string_eq,
  if◌then◌else◌, All, All-map, In, here, there, Bool-cases, eq_of_test,
}
use thinking_feature_flag_se.Values.{environment_eq}
use thinking_feature_flag_se.Models.{
  Flag, FlagEnvironmentConfig, Database, is_config, update_flag_row, update_config_row,
}
use thinking_feature_flag_se.Models.Integrity.{
  SamePlace, OnePerPlace, DistinctIds, DistinctKeys, SameKey, IsTyped, IsOwned, IsSound,
  DistinctIds-eq, In-update_flag_row, All-update_flag_row, All-update_config_row,
}

-- A new version of a row: the fields that no handler writes are the same.
pub record IsVersion (old new : Flag) : Type 0 where
  pub same_id : new.id ≡ old.id
  pub same_tenant : new.tenant_id ≡ old.tenant_id
  pub same_key : new.key ≡ old.key
  pub same_type : new.type ≡ old.type

update-id : (flag f : Flag) → (if f.id == flag.id then flag else f).id ≡ f.id
update-id flag f = ground arith

update-DistinctIds :
    (flag : Flag) (flags : List Flag) → DistinctIds flags → DistinctIds (update_flag_row flag flags)
unfolding update_flag_row
update-DistinctIds flag [] h = tt
update-DistinctIds flag (f ∷ flags) h = (
  rw (update-id flag f) (
      All-update_flag_row (λ g. g.id ≢ f.id) flag flags (λ g m e differs same. differs (e ∙ same))
        h.0),
  update-DistinctIds flag flags h.1,
)

module _ {old new : Flag} (version : IsVersion old new) where
  -- The row that an update puts in the place of `f`.
  abbrev replaced : Flag → Flag
  replaced f = if f.id == new.id then new else f

  module _ {flags : List Flag} (distinct : DistinctIds flags) (place : In old flags) where
    replaced-IsVersion : (f : Flag) → In f flags → IsVersion f (replaced f)
    replaced-IsVersion f m = elim (Bool-cases (f.id == new.id)) [
      | inr e ↦
          rw e (record { same_id = refl; same_tenant = refl; same_key = refl; same_type = refl })
      | inl e ↦ rw e (
          subst (λ x. IsVersion x new)
            (DistinctIds-eq distinct place m (sym version.same_id ∙ sym (eq_of_test f.id new.id e)))
            version)
    ]

module _ {old new : Flag} (version : IsVersion old new) where
  pub All-replaced :
      (P Q : Flag → Type 0) (flags : List Flag)
      → ((g : Flag) → In g flags → P g → Q (if g.id == new.id then new else g))
      → All P flags
      → All Q (update_flag_row new flags)
  unfolding update_flag_row
  All-replaced P Q [] keeps h = tt
  All-replaced P Q (f ∷ flags) keeps h =
      (keeps f here h.0, All-replaced P Q flags (λ g m. keeps g (there m)) h.1)

  -- The keys of a sublist stay distinct, while the rows of the whole list have distinct ids.
  update-DistinctKeys :
      {all_flags : List Flag}
      → DistinctIds all_flags
      → In old all_flags
      → (flags : List Flag) → ((g : Flag) → In g flags → In g all_flags)
      → DistinctKeys flags
      → DistinctKeys (update_flag_row new flags)
  unfolding update_flag_row
  update-DistinctKeys distinct place [] inside h = tt
  update-DistinctKeys distinct place (f ∷ flags) inside h = (
    All-replaced (λ g. ¬ (SameKey g f)) _ flags
        (λ g m differs same.
          let v = replaced-IsVersion version distinct place g (inside g (there m)) in
          let u = replaced-IsVersion version distinct place f (inside f here) in
          differs
            (sym v.same_tenant ∙ same.0 ∙ u.same_tenant, sym v.same_key ∙ same.1 ∙ u.same_key))
        h.0,
    update-DistinctKeys distinct place flags (λ g m. inside g (there m)) h.1,
  )

  update-IsOwned :
      {flags : List Flag} {c : FlagEnvironmentConfig}
      → DistinctIds flags
      → In old flags
      → IsOwned flags c
      → IsOwned (update_flag_row new flags) c
  update-IsOwned distinct place owned =
      let v = replaced-IsVersion version distinct place owned.owner owned.place in
      record {
        owner = if owned.owner.id == new.id then new else owned.owner;
        place = In-update_flag_row new owned.place;
        same_id = v.same_id ∙ owned.same_id;
        same_tenant = v.same_tenant ∙ owned.same_tenant;
        value_typed = rw (v.same_type) (owned.value_typed);
        in_range = owned.in_range;
      }

  -- A typed new version of a row, in the place of the old one, leaves the tables well-formed.
  pub update_flag_row-IsSound :
      {db : Database}
      → In old db.flags
      → IsTyped new
      → IsSound db
      → IsSound (record db { flags = update_flag_row new db.flags })
  update_flag_row-IsSound {db} place typed s = record {
    distinct_ids = update-DistinctIds new db.flags s.distinct_ids;
    distinct_keys = update-DistinctKeys s.distinct_ids place db.flags (λ g m. m) s.distinct_keys;
    typed = All-update_flag_row IsTyped new db.flags (λ g m e h. typed) s.typed;
    owned = All-map (λ c. update-IsOwned {c = c} s.distinct_ids place) db.configs s.owned;
    one_per_place = s.one_per_place;
  }

update-SamePlace :
    (config c : FlagEnvironmentConfig)
    → SamePlace (if is_config config.flag_id config.environment c then config else c) c
update-SamePlace config c = elim (Bool-cases (is_config config.flag_id config.environment c)) [
  | inl e ↦ rw e (
    sym (eq_of_test c.flag_id config.flag_id (ground arith)),
    sym (eq_of_test c.environment config.environment (ground arith)),
  )
  | inr e ↦ rw e (refl, refl)
]

update-apart :
    (config c c' : FlagEnvironmentConfig) (configs : List FlagEnvironmentConfig)
    → SamePlace c' c
    → All (λ d. ¬ (SamePlace d c)) configs
    → All (λ d. ¬ (SamePlace d c')) (update_config_row config configs)
unfolding update_config_row
update-apart config c c' [] same h = tt
update-apart config c c' (d ∷ configs) same h =
    let kept = update-SamePlace config d in
    (
      λ e. h.0 (sym kept.0 ∙ e.0 ∙ same.0, sym kept.1 ∙ e.1 ∙ same.1),
      update-apart config c c' configs same h.1,
    )

update-OnePerPlace :
    (config : FlagEnvironmentConfig) (configs : List FlagEnvironmentConfig)
    → OnePerPlace configs
    → OnePerPlace (update_config_row config configs)
unfolding update_config_row
update-OnePerPlace config [] h = tt
update-OnePerPlace config (c ∷ configs) h = (
  update-apart config c (if is_config config.flag_id config.environment c then config else c)
      configs (update-SamePlace config c) h.0,
  update-OnePerPlace config configs h.1,
)

-- A config with an owner, in the place of another, leaves the tables well-formed.
pub update_config_row-IsSound :
    {db : Database} {config : FlagEnvironmentConfig}
    → IsOwned db.flags config
    → IsSound db
    → IsSound (record db { configs = update_config_row config db.configs })
update_config_row-IsSound {db} {config} owned s = record {
  distinct_ids = s.distinct_ids;
  distinct_keys = s.distinct_keys;
  typed = s.typed;
  owned = All-update_config_row (IsOwned db.flags) config owned db.configs s.owned;
  one_per_place = update-OnePerPlace config db.configs s.one_per_place;
}
