-- ===== src/Outcome.antt =====
-- How a handler ends: it returns, or it raises. FastAPI turns an `HTTPException` into a response of
-- its status; any other exception becomes a 500.
use thinking_feature_flag_se.Common.{ℕ, String, Bool, true, false, ◌≡◌, refl}

pub data Error : Type 0 where
  -- `HTTPException(status, detail)`
  http_exception : ℕ → String → Error
  -- `RequestValidationError`
  invalid_request : Error
  -- an exception that the handler does not catch, such as an `IntegrityError` at the commit
  unhandled : Error

abbrev pub status_of : Error → ℕ
status_of (http_exception status detail) = status
status_of invalid_request = 422
status_of unhandled = 500

pub data Outcome {ℓ} (A : Type ℓ) : Type ℓ where
  ok : A → Outcome A
  raised : Error → Outcome A

infixl 5 ◌>>=◌
abbrev pub ◌>>=◌ {ℓ κ} : {A : Type ℓ} {B : Type κ} → Outcome A → (A → Outcome B) → Outcome B
raised e >>= next = raised e
ok value >>= next = next value

-- A step of which only the exception matters.
infixl 5 ◌>>◌
abbrev pub ◌>>◌ {κ} : {B : Type κ} → Outcome (Unit {0}) → Outcome B → Outcome B
check >> rest = check >>= λ _. rest

abbrev pub raise_unless : Bool → Error → Outcome (Unit {0})
raise_unless false e = raised e
raise_unless true e = ok tt

-- A chain that returns has passed its first step, and the rest returns from there.
pub >>=-eq-ok {ℓ κ} :
    {A : Type ℓ} {B : Type κ} (first : Outcome A) (next : A → Outcome B) {result : B}
    → (first >>= next) ≡ ok result
    → (value : A) × (first ≡ ok value) × (next value ≡ ok result)
>>=-eq-ok (raised e) next returns = cc
>>=-eq-ok (ok value) next returns = (value, refl, returns)
