-- ===== src/Evaluation/Typed.antt =====
-- The types of the values that `evaluate` returns (app/evaluation.py).
use thinking_feature_flag_se.Common.{
  ◌≡◌, refl, String, true, not, Option, none, some, first, first-In, All, All-at, if-either, leb,
}
use thinking_feature_flag_se.Values.{FlagType, value_matches_type}
use thinking_feature_flag_se.Evaluation.{
  Platform, Context, Rule, FlagSnapshot, Evaluation, bucket_for, matches, by_rollout, by_rules,
  evaluate,
}

module _ (platform : Platform) (user_id : String) (s : FlagSnapshot) (type : FlagType) where
  abbrev Typed : Evaluation → Type 0
  Typed e = value_matches_type e.value type ≡ true

  by_rules-Typed :
      (found : Option Rule)
      → value_matches_type (some s.default_value) type ≡ true
      → value_matches_type (some s.value) type ≡ true
      → ((rule : Rule) → found ≡ some rule → value_matches_type rule.value type ≡ true)
      → Typed (by_rules platform s user_id found)
  unfolding by_rules by_rollout
  by_rules-Typed none off on ruled =
      if-either Typed (leb s.rollout_percentage (bucket_for platform s.key user_id)) off on
  by_rules-Typed (some rule) off on ruled = ruled rule refl

  -- Default, value and rules of a type give a value of the type.
  pub evaluate-Typed :
      (context : Context)
      → value_matches_type (some s.default_value) type ≡ true
      → value_matches_type (some s.value) type ≡ true
      → All (λ (rule : Rule). value_matches_type rule.value type ≡ true) s.targeting_rules
      → Typed (evaluate platform s user_id context)
  unfolding evaluate
  evaluate-Typed context off on ruled = if-either Typed s.is_archived off (
      if-either Typed (not s.enabled) off (
        by_rules-Typed (first (λ rule. matches platform rule user_id context) s.targeting_rules) off
          on
          (λ rule found.
            All-at (λ (r : Rule). value_matches_type r.value type ≡ true)
              (first-In (λ r. matches platform r user_id context) s.targeting_rules found).0
              ruled)))
