-- ===== src/Security/Access.antt =====
-- What a request with a key can reach (app/security.py).
use text.Mathlib.TextEquality.{eq_iff}
use thinking_feature_flag_se.Common.{
  ◌≡◌, refl, ap, subst, ◌≢◌, ◌↔◌, String, true, Option, none, some, arith, string_eq, first, In,
  first-In,
}
use thinking_feature_flag_se.Evaluation.{Platform}
use thinking_feature_flag_se.Models.{Uuid, ApiKey, Database}
use thinking_feature_flag_se.Outcome.{ok, raised, http_exception, >>=-eq-ok}
use thinking_feature_flag_se.Security.{
  hash_api_key, has_hash, is_ascii, authenticate, require_tenant, require_admin,
}

authenticate-row :
    (platform : Platform) (db : Database) (raw : String) {k : ApiKey}
    → authenticate platform db (some raw) ≡ ok k
    → first (has_hash (hash_api_key platform raw)) db.api_keys ≡ some k
unfolding authenticate
authenticate-row platform db raw e = ground arith

-- A request is authenticated only with a key whose hash is that of a stored row.
pub authenticate-In :
    (platform : Platform) (db : Database) (x_api_key : Option String) (k : ApiKey)
    → authenticate platform db x_api_key ≡ ok k
    → In k db.api_keys
      × ((raw : String) × (x_api_key ≡ some raw) × (k.key_hash ≡ hash_api_key platform raw))
unfolding authenticate
authenticate-In platform db none k e = cc
authenticate-In platform db (some raw) k e =
    let (place, same) =
      first-In (has_hash (hash_api_key platform raw)) db.api_keys
        (authenticate-row platform db raw e) in
    (place, (raw, refl, (eq_iff k.key_hash (hash_api_key platform raw)).0 same))

-- A request passes `require_tenant` only with a key whose hash is stored, and whose row belongs to
-- the tenant of the path.
pub require_tenant-owner :
    (platform : Platform) (db : Database) (tenant_id : Uuid) (x_api_key : Option String)
    (k : ApiKey)
    → require_tenant platform db tenant_id x_api_key ≡ ok k
    → In k db.api_keys
      × (k.tenant_id ≡ tenant_id)
      × ((raw : String) × (x_api_key ≡ some raw) × (k.key_hash ≡ hash_api_key platform raw))
unfolding require_tenant
require_tenant-owner platform db tenant_id x_api_key k e =
    let (a, authenticated, owned) = >>=-eq-ok (authenticate platform db x_api_key) _ e in
    let same : a ≡ k = ground arith in
    let (place, hashed) = authenticate-In platform db x_api_key a authenticated in
    (
      subst (λ z. In z db.api_keys) same place,
      ground arith,
      subst
          (λ (z : ApiKey).
            (raw : String) × (x_api_key ≡ some raw) × (z.key_hash ≡ hash_api_key platform raw))
          same hashed,
    )

-- A key of another tenant gets a 404, which does not tell whether the tenant of the path exists.
pub require_tenant-foreign :
    (platform : Platform) (db : Database) (tenant_id : Uuid) (x_api_key : Option String)
    (k : ApiKey)
    → authenticate platform db x_api_key ≡ ok k
    → k.tenant_id ≢ tenant_id
    → require_tenant platform db tenant_id x_api_key
      ≡ raised (http_exception 404 "Tenant not found")
unfolding require_tenant
require_tenant-foreign platform db tenant_id x_api_key k e other = rw e (ground arith)

-- `require_admin` passes the operator's key alone, for keys of ASCII characters.
pub require_admin_iff :
    (admin key : String)
    → is_ascii admin ≡ true
    → is_ascii key ≡ true
    → (require_admin admin (some key) ≡ ok tt) ↔ (key ≡ admin)
unfolding require_admin
require_admin_iff admin key ha hk =
    (λ e. ground (arith, eq_iff key admin), λ e. ground (arith, eq_iff key admin))

-- Only the operator's key passes `require_admin`.
pub require_admin-operator :
    (admin : String) (x_api_key : Option String)
    → require_admin admin x_api_key ≡ ok tt
    → x_api_key ≡ some admin
unfolding require_admin
require_admin-operator admin none h = absurd (cc)
require_admin-operator admin (some key) h = ap some ((eq_iff key admin).0 (ground arith))
