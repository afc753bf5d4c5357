-- ===== src/Values.antt =====
-- The values that flags carry: `FlagValue` and `_value_matches_type` of
-- thinking-feature-flag-service/app/schemas.py, `FlagType` and `Environment` of app/models.py, and
-- Python's `==` and `str` on them.
pub mod Equality
use thinking_feature_flag_se.Common.{
  ℕ, zero, suc, ◌+◌, ◌*◌, ◌/◌, ◌%◌, ◌^◌, String, ◌≡◌, refl, ◌↔◌, Bool, true, false, not, ◌&&◌,
  Option, none, some, List, [], ◌∷◌, arith, ltb, ◌==◌, nat_eq, string_eq, if◌then◌else◌, Eq,
}
use thinking_feature_flag_se.Common.Texts.{codes}
use thinking_feature_flag_se.Common.Texts.Numbers.{number_text}

pub data Environment : Type 0 where
  development staging production : Environment

-- `list(Environment)`
abbrev pub environments : List Environment
environments = development ∷ staging ∷ production ∷ []

-- `environment.value`
abbrev pub environment_value : Environment → String
environment_value development = "development"
environment_value staging = "staging"
environment_value production = "production"

abbrev pub same_environment : Environment → Environment → Bool
same_environment development development = true
same_environment staging staging = true
same_environment production production = true
same_environment _ _ = false

pub same_environment_iff : (a b : Environment) → (same_environment a b ≡ true) ↔ (a ≡ b)
same_environment_iff a b = ground arith

instance abbrev pub environment_eq : Eq Environment
environment_eq = record { same = same_environment; same_iff = same_environment_iff }

pub data FlagType : Type 0 where
  boolean string number : FlagType

-- `flag.type.value`
abbrev pub flag_type_value : FlagType → String
flag_type_value boolean = "boolean"
flag_type_value string = "string"
flag_type_value number = "number"

-- A Python int; `negsuc n` is -(n + 1).
pub data ℤ : Type 0 where
  pos : ℕ → ℤ
  negsuc : ℕ → ℤ

abbrev pub pos_part : ℤ → ℕ
pos_part (pos n) = n
pos_part (negsuc n) = 0

abbrev pub neg_part : ℤ → ℕ
neg_part (pos n) = 0
neg_part (negsuc n) = suc n

-- `bool | int | float | str`. A finite float is a mantissa over a power of two: `float m k` is
-- m / 2 ^ k. Infinities and NaN are no JSON, and negative zero is not told from zero.
pub data FlagValue : Type 0 where
  bool : Bool → FlagValue
  int : ℤ → FlagValue
  float : ℤ → ℕ → FlagValue
  str : String → FlagValue

-- What `==` looks at: a text, or a number, which `True` and `False` are too.
pub data Comparand : Type 0 where
  text : String → Comparand
  ratio : ℤ → ℕ → Comparand

abbrev pub comparand : FlagValue → Comparand
comparand (bool true) = ratio (pos 1) 0
comparand (bool false) = ratio (pos 0) 0
comparand (int n) = ratio n 0
comparand (float m k) = ratio m k
comparand (str s) = text s

same_ratio : ℤ → ℕ → ℤ → ℕ → Bool
same_ratio a j b k =
    pos_part a * 2 ^ k == pos_part b * 2 ^ j && neg_part a * 2 ^ k == neg_part b * 2 ^ j

same_comparand : Comparand → Comparand → Bool
unfolding same_ratio
same_comparand (text s) (text t) = s == t
same_comparand (text s) (ratio b k) = false
same_comparand (ratio a j) (text t) = false
same_comparand (ratio a j) (ratio b k) = same_ratio a j b k

-- Python's `a == b`, under which `True == 1` and `1 == 1.0`
unfoldable pub equals : FlagValue → FlagValue → Bool
unfolding same_comparand
equals a b = same_comparand (comparand a) (comparand b)

-- `==` on values of which one may be `None`
unfoldable pub equals_option : Option FlagValue → Option FlagValue → Bool
unfolding equals
equals_option none none = true
equals_option none (some b) = false
equals_option (some a) none = false
equals_option (some a) (some b) = equals a b

decimal : ℤ → List ℕ
decimal (pos n) = codes (number_text n)
decimal (negsuc n) = b'-' ∷ codes (number_text (suc n))

-- `str(v)`, as code points. The shortest float text is CPython's, a parameter.
unfoldable pub str_of : (ℤ → ℕ → String) → FlagValue → List ℕ
unfolding decimal
str_of float_str (bool true) = codes "True"
str_of float_str (bool false) = codes "False"
str_of float_str (int n) = decimal n
str_of float_str (float m k) = codes (float_str m k)
str_of float_str (str s) = codes s

-- `_value_matches_type`; `None` is no instance of any of the classes.
unfoldable pub value_matches_type : Option FlagValue → FlagType → Bool
value_matches_type (some (bool b)) boolean = true
value_matches_type (some (int n)) number = true
value_matches_type (some (float m k)) number = true
value_matches_type (some (str s)) string = true
value_matches_type _ _ = false

str_of_int : str_of (λ m k. "") (int (negsuc 119)) ≡ codes "-120"
unfolding str_of number_text
str_of_int = refl
