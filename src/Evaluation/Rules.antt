-- ===== src/Evaluation/Rules.antt =====
-- What the operators of a targeting rule test (`_matches` of app/evaluation.py).
use thinking_feature_flag_se.Common.{
  ℕ, ◌≡◌, refl, ◌≢◌, ◌↔◌, inl, inr, String, Bool, true, false, not, Option, none, some, List, [],
  ◌∷◌, ◌++◌, any, arith, Bool-cases, In, here, there, string_eq, nat_eq, member,
}
use thinking_feature_flag_se.Common.Texts
use thinking_feature_flag_se.Common.Texts.{codes}
use thinking_feature_flag_se.Common.Texts.Search.{contains_iff, starts_with_iff, ends_with_iff}
use thinking_feature_flag_se.Values.{FlagValue, str, str_of}
use thinking_feature_flag_se.Evaluation.{
  Platform, Context, Rule, Json, scalar, actual_value, differs_from_first, any_text, holds, matches,
  expected_values,
}

any-In {ℓ} :
    {A : Type ℓ} (test : A → Bool) (xs : List A)
    → any test xs ≡ true
    → (x : A) × In x xs × (test x ≡ true)
any-In test [] e = cc
any-In test (x ∷ xs) e = elim (Bool-cases (test x)) [
  | inl passed ↦ (x, here, passed)
  | inr failed ↦ let (y, place, passed) = any-In test xs (ground arith) in (y, there place, passed)
]

In-any {ℓ} :
    {A : Type ℓ} (test : A → Bool) {x : A} {xs : List A}
    → In x xs
    → test x ≡ true
    → any test xs ≡ true
In-any test here h = rw h
In-any test (there {x = y} m) h = ground (arith, In-any test m h)

-- `test` holds of the text and the text of one of the operands.
abbrev SomeOperand : Platform → (List ℕ → Type 0) → List FlagValue → Type 0
SomeOperand platform P expected = (v : FlagValue) × In v expected × P (str_of platform.float_str v)

any_text_iff :
    (test : List ℕ → List ℕ → Bool) (P : List ℕ → List ℕ → Type 0)
    → ((text part : List ℕ) → (test text part ≡ true) ↔ P text part)
    → (platform : Platform) (s : String) (expected : List FlagValue)
    → (any_text test platform (scalar (str s)) expected ≡ true)
      ↔ SomeOperand platform (P (codes s)) expected
unfolding any_text
any_text_iff test P iff platform s expected = (
  λ h.
      let (v, place, passed) =
        any-In (λ v. test (codes s) (str_of platform.float_str v)) expected h in
      (v, place, (iff (codes s) (str_of platform.float_str v)).0 passed),
  λ (v, place, p). In-any _ place ((iff (codes s) (str_of platform.float_str v)).1 p),
)

-- A rule on one attribute.
abbrev pub rule_on : String → String → List FlagValue → FlagValue → Rule
rule_on attribute operator values value = record {
  attribute = some attribute;
  operator = some operator;
  values = some values;
  value = some value;
}

-- Where the attribute is found, the operator decides.
matches_found :
    (platform : Platform) (rule : Rule) (user_id : String) (context : Context) {actual : Json}
    → actual_value rule.attribute user_id context ≡ some actual
    → matches platform rule user_id context
      ≡ holds platform rule.operator actual (expected_values rule)
unfolding matches
matches_found platform rule user_id context found = rw (found, matches)

module _ (platform : Platform) (attribute user_id : String) (context : Context)
    (values : List FlagValue) (value : FlagValue) where
  abbrev Matches : String → Type 0
  Matches operator =
      matches platform (rule_on attribute operator values value) user_id context ≡ true

  -- The three text operators match exactly when some operand, as `str` prints it, stands in the text,
  -- at its beginning or at its end.
  abbrev pub TextOperators : String → Type 0
  TextOperators s =
      (Matches "contains"
        ↔ SomeOperand platform
            (λ part. (before : List ℕ) × (after : List ℕ) × (codes s ≡ before ++ part ++ after))
            values)
      × (Matches "starts_with"
          ↔ SomeOperand platform (λ part. (rest : List ℕ) × (codes s ≡ part ++ rest)) values)
      × (Matches "ends_with"
          ↔ SomeOperand platform (λ part. (before : List ℕ) × (codes s ≡ before ++ part)) values)

  -- On an attribute that is a text, a rule with `contains`, `starts_with` or `ends_with` matches exactly
  -- when some operand, as `str` prints it, stands in the text, at its beginning or at its end.
  pub text_operators :
      (s : String)
      → actual_value (some attribute) user_id context ≡ some (scalar (str s))
      → TextOperators s
  unfolding holds
  text_operators s found =
      let matched = λ (operator : String).
        matches_found platform (rule_on attribute operator values value) user_id context found in
      (
        rw (matched "contains") (any_text_iff Texts.contains _ contains_iff platform s values),
        rw (matched "starts_with")
            (any_text_iff Texts.starts_with _ starts_with_iff platform s values),
        rw (matched "ends_with") (any_text_iff Texts.ends_with _ ends_with_iff platform s values),
      )

  -- Where the attribute is there and the operands are some, `not_in` is the opposite of `in`, and `neq`
  -- of `eq`.
  pub opposite_operators :
      (actual : Json)
      → actual_value (some attribute) user_id context ≡ some actual
      → values ≢ []
      → (matches platform (rule_on attribute "not_in" values value) user_id context
          ≡ not (matches platform (rule_on attribute "in" values value) user_id context))
        × (matches platform (rule_on attribute "neq" values value) user_id context
            ≡ not (matches platform (rule_on attribute "eq" values value) user_id context))
  unfolding holds differs_from_first
  opposite_operators actual found some_operand =
      let matched = λ (operator : String).
        matches_found platform (rule_on attribute operator values value) user_id context found in
      (rw (matched "not_in", matched "in"), rw (matched "neq", matched "eq") (ground arith))

abbrev pub known_operators : List String
known_operators = "in" ∷ "not_in" ∷ "eq" ∷ "neq" ∷ "contains" ∷ "starts_with" ∷ "ends_with" ∷ []

-- What is wrong with a rule: its attribute is missing or null, or it names none of the seven
-- operators.
pub data IsMalformed (user_id : String) (context : Context) (rule : Rule) : Type 0 where
  no_actual : actual_value rule.attribute user_id context ≡ none → IsMalformed user_id context rule
  no_operator : rule.operator ≡ none → IsMalformed user_id context rule
  unknown_operator :
      (operator : String)
      → rule.operator ≡ some operator
      → member operator known_operators ≡ false
      → IsMalformed user_id context rule

unknown-holds :
    (platform : Platform) (operator : String) (actual : Json) (expected : List FlagValue)
    → member operator known_operators ≡ false
    → holds platform (some operator) actual expected ≡ false
unfolding holds
unknown-holds platform operator actual expected h = ground arith

malformed-holds :
    (platform : Platform) (operator : Option String) (found : Option Json)
    (expected : List FlagValue)
    → ((actual : Json) → holds platform operator actual expected ≡ false)
    → (elim found [ none ↦ false | some actual ↦ holds platform operator actual expected ]) ≡ false
malformed-holds platform operator none expected h = refl
malformed-holds platform operator (some actual) expected h = h actual

-- A malformed rule matches nobody, whatever its operands are.
pub malformed_misses :
    (platform : Platform) (user_id : String) (context : Context) (rule : Rule)
    → IsMalformed user_id context rule
    → matches platform rule user_id context ≡ false
unfolding matches holds
malformed_misses platform user_id context rule (no_actual h) = rw (h, matches)
malformed_misses platform user_id context rule (no_operator h) =
    malformed-holds platform rule.operator (actual_value rule.attribute user_id context)
      (expected_values rule) (λ actual. rw h)
malformed_misses platform user_id context rule (unknown_operator operator h u) =
    malformed-holds platform rule.operator (actual_value rule.attribute user_id context)
      (expected_values rule)
      (λ actual. rw h (unknown-holds platform operator actual (expected_values rule) u))
