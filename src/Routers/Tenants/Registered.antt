-- ===== src/Routers/Tenants/Registered.antt =====
-- What a new key opens (`create_tenant` of app/routers/tenants.py, then app/security.py).
use thinking_feature_flag_se.Common.{
  ◌≡◌, refl, ap, subst, String, Bool, true, false, some, List, [], ◌∷◌, ◌++◌, any, first, arith,
  nat_eq, string_eq, eq_self, Bool-cases, inl, inr,
}
use thinking_feature_flag_se.Evaluation.{Platform}
use thinking_feature_flag_se.Models.{Uuid, Instant, ApiKey, Database}
use thinking_feature_flag_se.Schemas.{TenantCreate}
use thinking_feature_flag_se.Outcome.{Error, ok, raised}
use thinking_feature_flag_se.Security.{
  generate_api_key, hash_api_key, has_hash, authenticate, require_tenant,
}
use thinking_feature_flag_se.Routers.Tenants.{
  TenantCreated, new_tenant, new_key, tenant_conflicts, create_tenant,
}

first-append_new {ℓ} :
    {A : Type ℓ} (test : A → Bool) (xs : List A) (x : A)
    → any test xs ≡ false
    → test x ≡ true
    → first test (xs ++ x ∷ []) ≡ some x
first-append_new test [] x missed hit = rw hit refl
first-append_new test (y ∷ xs) x missed hit = ground (arith, first-append_new test xs x)

raised-ne-ok : {A : Type 0} {a : A} {e : Error} → ¬ (raised e ≡ ok a)
raised-ne-ok e = cc

ok-injective : {A : Type 0} {a b : A} → ok a ≡ ok b → a ≡ b
ok-injective e = cc

-- A key whose row is the first with its hash opens the tenant of the row.
stored_key-opens :
    (platform : Platform) (db : Database) (raw : String) (key : ApiKey)
    → first (has_hash (hash_api_key platform raw)) db.api_keys ≡ some key
    → require_tenant platform db key.tenant_id (some raw) ≡ ok key
unfolding require_tenant authenticate
stored_key-opens platform db raw key found = rw found (rw (eq_self key.tenant_id) refl)

module _ (platform : Platform) (payload : TenantCreate) (tenant_id key_id : Uuid) (token : String)
    (now : Instant) (db : Database) where
  -- The key that a registration returns opens the new tenant, and resolves to the row that was stored
  -- for it.
  pub create_tenant-require_tenant :
      {created : TenantCreated} {db' : Database}
      → create_tenant platform payload tenant_id key_id token now db ≡ (ok created, db')
      → require_tenant platform db' created.id (some created.api_key)
        ≡ ok (new_key key_id created.id (hash_api_key platform created.api_key) now)
  unfolding create_tenant
  create_tenant-require_tenant {created} {db'} e =
      let raw_key = generate_api_key token in
      let key = new_key key_id tenant_id (hash_api_key platform raw_key) now in
      elim (Bool-cases (tenant_conflicts tenant_id key db)) [
        | inl taken ↦ absurd (raised-ne-ok (ap (λ r. r.0) (rw taken at e)))
        | inr free ↦
            let returned = rw free at e in
            let same = ok-injective (ap (λ r. r.0) returned) in
            let opens =
              stored_key-opens platform
                (record db {
                  tenants = db.tenants ++ new_tenant payload tenant_id now ∷ [];
                  api_keys = db.api_keys ++ key ∷ [];
                })
                raw_key key
                (first-append_new (has_hash (hash_api_key platform raw_key)) db.api_keys key
                  (ground arith) (eq_self (hash_api_key platform raw_key))) in
            subst
              (λ (c : TenantCreated).
                require_tenant platform db' c.id (some c.api_key)
                ≡ ok (new_key key_id c.id (hash_api_key platform c.api_key) now))
              same
              (subst (λ d. require_tenant platform d tenant_id (some raw_key) ≡ ok key)
                (ap (λ r. r.1) returned) opens)
      ]
