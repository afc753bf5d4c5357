-- ===== src/Evaluation.antt =====
-- The evaluation engine (thinking-feature-flag-service/app/evaluation.py). SHA-256 and the shortest
-- text of a float come from outside the repository: they are the fields of `Platform`.
pub mod Bucket
pub mod Precedence
pub mod Rollout
pub mod Rules
pub mod Typed
use thinking_feature_flag_se.Common.{
  ℕ, ◌+◌, ◌*◌, ◌%◌, ◌<>◌, String, Bool, false, not, Option, none, some, List, [], ◌∷◌, map, leb,
  ◌==◌, nat_eq, string_eq, if◌then◌else◌, any, first, take,
}
use thinking_feature_flag_se.Common.Texts
use thinking_feature_flag_se.Common.Texts.{codes}
use thinking_feature_flag_se.Values.{ℤ, FlagValue, str, equals, str_of}
use mathlib.Core.List.{foldl}

pub record Platform : Type 0 where
  -- `sha256(text.encode()).digest()`
  pub sha256 : String → List ℕ
  -- `str(x)` of a float
  pub float_str : ℤ → ℕ → String

-- What JSON can put into a context: `None`, a flag value, a list or a dict.
mutual
  pub data Json : Type 0 where
    null : Json
    scalar : FlagValue → Json
    array : Elements → Json
    object : Members → Json

  pub data Elements : Type 0 where
    no_elements : Elements
    element : Json → Elements → Elements

  pub data Members : Type 0 where
    no_members : Members
    member_of : String → Json → Members → Members

-- `dict[str, Any]`, as its items
abbrev pub Context : Type 0
Context = List (String × Json)

pub data Reason : Type 0 where
  archived no_config disabled targeting_match outside_rollout in_rollout : Reason

-- A rule is a dict; `none` is a key that it does not have.
pub record Rule : Type 0 where
  pub attribute : Option String
  pub operator : Option String
  pub values : Option (List FlagValue)
  pub value : Option FlagValue

pub record FlagSnapshot : Type 0 where
  pub key : String
  pub type : String
  pub default_value : FlagValue
  pub enabled : Bool
  pub value : FlagValue
  pub rollout_percentage : ℕ
  pub targeting_rules : List Rule
  pub is_archived : Bool

pub record Evaluation : Type 0 where
  pub key : String
  pub value : Option FlagValue
  pub reason : Reason

abbrev pub bucket_space : ℕ
bucket_space = 100

-- `int.from_bytes(bytes, byteorder="big")`
unfoldable pub from_bytes : List ℕ → ℕ
from_bytes = foldl (λ n byte. n * 256 + byte) 0

-- The text that is hashed, `f"{flag_key}:{user_id}"`
abbrev pub hashed_text : String → String → String
hashed_text flag_key user_id = flag_key <> ":" <> user_id

unfoldable pub bucket_for : Platform → String → String → ℕ
unfolding from_bytes
bucket_for platform flag_key user_id =
    from_bytes (take 4 (platform.sha256 (hashed_text flag_key user_id))) % bucket_space

-- `context.get(attribute)`; the keys of a context are texts, so that `None` is never one.
context_get : Context → Option String → Option Json
context_get context none = none
context_get [] (some attribute) = none
context_get ((name, value) ∷ context) (some attribute) =
    if name == attribute then some value else context_get context (some attribute)

-- `user_id if attribute == "user_id" else context.get(attribute)`, with `None` for null
unfoldable pub actual_value : Option String → String → Context → Option Json
unfolding context_get
actual_value none user_id context = none
actual_value (some attribute) user_id context =
    if attribute == "user_id"
    then some (scalar (str user_id))
    else elim (context_get context (some attribute)) [ some null ↦ none | found ↦ found ]

-- `actual in expected`: a list or a dict equals no flag value.
is_in : Json → List FlagValue → Bool
is_in (scalar v) expected = any (equals v) expected
is_in _ expected = false

-- `actual == expected[0]` and its negation, on a list that may be empty
equals_first : Json → List FlagValue → Bool
equals_first (scalar v) (e ∷ expected) = equals v e
equals_first _ _ = false

differs_from_first : Json → List FlagValue → Bool
unfolding equals_first
differs_from_first actual [] = false
differs_from_first actual (e ∷ expected) = not (equals_first actual (e ∷ expected))

-- `isinstance(actual, str) and any(test(actual, str(v)) for v in expected)`
any_text : (List ℕ → List ℕ → Bool) → Platform → Json → List FlagValue → Bool
any_text test platform (scalar (str s)) expected =
    any (λ v. test (codes s) (str_of platform.float_str v)) expected
any_text test platform _ expected = false

holds : Platform → Option String → Json → List FlagValue → Bool
unfolding is_in equals_first differs_from_first any_text
holds platform none actual expected = false
holds platform (some operator) actual expected =
    if operator == "in"
    then is_in actual expected
    else if operator == "not_in"
    then not (is_in actual expected)
    else if operator == "eq"
    then equals_first actual expected
    else if operator == "neq"
    then differs_from_first actual expected
    else if operator == "contains"
    then any_text Texts.contains platform actual expected
    else if operator == "starts_with"
    then any_text Texts.starts_with platform actual expected
    else if operator == "ends_with"
    then any_text Texts.ends_with platform actual expected
    else false

-- `rule.get("values", [])`
abbrev pub expected_values : Rule → List FlagValue
expected_values rule = elim rule.values [ none ↦ [] | some values ↦ values ]

unfoldable pub matches : Platform → Rule → String → Context → Bool
unfolding holds actual_value
matches platform rule user_id context = elim (actual_value rule.attribute user_id context) [
  | none ↦ false
  | some actual ↦ holds platform rule.operator actual (expected_values rule)
]

-- The code after the loop over the rules.
by_rollout : Platform → FlagSnapshot → String → Evaluation
unfolding bucket_for
by_rollout platform snapshot user_id =
    if leb snapshot.rollout_percentage (bucket_for platform snapshot.key user_id)
    then record {
      key = snapshot.key;
      value = some snapshot.default_value;
      reason = outside_rollout;
    }
    else record { key = snapshot.key; value = some snapshot.value; reason = in_rollout }

-- The loop over the rules returns at the first that matches.
by_rules : Platform → FlagSnapshot → String → Option Rule → Evaluation
unfolding by_rollout
by_rules platform snapshot user_id (some rule) = record {
  key = snapshot.key;
  value = rule.value;
  reason = targeting_match;
}
by_rules platform snapshot user_id none = by_rollout platform snapshot user_id

unfoldable pub evaluate : Platform → FlagSnapshot → String → Context → Evaluation
unfolding by_rules matches
evaluate platform snapshot user_id context =
    if snapshot.is_archived
    then record { key = snapshot.key; value = some snapshot.default_value; reason = archived }
    else if not snapshot.enabled
    then record { key = snapshot.key; value = some snapshot.default_value; reason = disabled }
    else by_rules platform snapshot user_id
        (first (λ rule. matches platform rule user_id context) snapshot.targeting_rules)

unfoldable pub evaluate_all : Platform → List FlagSnapshot → String → Context → List Evaluation
unfolding evaluate
evaluate_all platform snapshots user_id context =
    map (λ s. evaluate platform s user_id context) snapshots
