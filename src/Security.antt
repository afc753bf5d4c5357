-- ===== src/Security.antt =====
-- API keys and the authentication dependencies (thinking-feature-flag-service/app/security.py).
pub mod Access
pub mod Hashes
use thinking_feature_flag_se.Common.{
  ℕ, ◌+◌, ◌/◌, ◌%◌, ◌<>◌, String, Bool, true, false, not, ◌&&◌, Option, none, some, List, [], ◌∷◌,
  zero, suc, ltb, ◌==◌, nat_eq, string_eq, if◌then◌else◌, all, first,
}
use thinking_feature_flag_se.Common.Texts.{codes}
use thinking_feature_flag_se.Evaluation.{Platform}
use thinking_feature_flag_se.Models.{Uuid, ApiKey, Database}
use thinking_feature_flag_se.Outcome.{
  Outcome, ok, raised, Error, http_exception, unhandled, ◌>>=◌, ◌>>◌, raise_unless,
}

abbrev pub key_prefix : String
key_prefix = "ffs"

-- The token is that of `secrets.token_urlsafe(32)`.
abbrev pub generate_api_key : String → String
generate_api_key token = key_prefix <> "_" <> token

hex_digits : List String
hex_digits =
    "0" ∷ "1" ∷ "2" ∷ "3" ∷ "4" ∷ "5" ∷ "6" ∷ "7" ∷ "8" ∷ "9" ∷ "a" ∷ "b" ∷ "c" ∷ "d" ∷ "e" ∷ "f"
    ∷ []

digit_at : List String → ℕ → String
digit_at [] n = ""
digit_at (d ∷ digits) zero = d
digit_at (d ∷ digits) (suc n) = digit_at digits n

-- `digest.hexdigest()`
pub hex : List ℕ → String
unfolding digit_at hex_digits
hex [] = ""
hex (byte ∷ bytes) = digit_at hex_digits (byte / 16) <> digit_at hex_digits (byte % 16) <> hex bytes

unfoldable pub hash_api_key : Platform → String → String
unfolding hex
hash_api_key platform raw_key = hex (platform.sha256 raw_key)

abbrev pub missing_key : Error
missing_key = http_exception 401 "Missing X-API-Key header"

abbrev pub is_ascii : String → Bool
is_ascii s = all (λ c. ltb c 128) (codes s)

-- `secrets.compare_digest` on two texts: a `TypeError` unless both are ASCII
compare_digest : String → String → Outcome Bool
compare_digest a b = if is_ascii a && is_ascii b then ok (a == b) else raised unhandled

unfoldable pub require_admin : String → Option String → Outcome (Unit {0})
unfolding compare_digest
require_admin admin_api_key none = raised missing_key
require_admin admin_api_key (some x_api_key) = do
  same ← compare_digest x_api_key admin_api_key
  raise_unless same (http_exception 401 "Invalid admin API key")

abbrev pub has_hash : String → ApiKey → Bool
has_hash key_hash k = k.key_hash == key_hash

-- `scalar_one_or_none`, and the test for `None`
key_or_401 : Option ApiKey → Outcome ApiKey
key_or_401 none = raised (http_exception 401 "Invalid API key")
key_or_401 (some api_key) = ok api_key

unfoldable pub authenticate : Platform → Database → Option String → Outcome ApiKey
unfolding key_or_401 hash_api_key
authenticate platform db none = raised missing_key
authenticate platform db (some x_api_key) =
    key_or_401 (first (has_hash (hash_api_key platform x_api_key)) db.api_keys)

unfoldable pub require_tenant : Platform → Database → Uuid → Option String → Outcome ApiKey
unfolding authenticate
require_tenant platform db tenant_id x_api_key = do
  api_key ← authenticate platform db x_api_key
  if not (api_key.tenant_id == tenant_id)
      then raised (http_exception 404 "Tenant not found")
      else ok api_key
