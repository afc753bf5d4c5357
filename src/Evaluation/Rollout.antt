-- ===== src/Evaluation/Rollout.antt =====
-- What the percentage does in `evaluate` of app/evaluation.py.
use thinking_feature_flag_se.Common.{
  ℕ, ◌≤◌, ◌<◌, All-map, ◌≡◌, refl, ◌≢◌, ◌⊎◌, String, true, false, some, All, arith,
}
use thinking_feature_flag_se.Evaluation.{
  Platform, Context, FlagSnapshot, bucket_for, evaluate, by_rollout, outside_rollout, in_rollout,
}
use thinking_feature_flag_se.Evaluation.Bucket.{bucket_for-lt}
use thinking_feature_flag_se.Evaluation.Precedence.{serves, when_inside, evaluate-iff-Resolves}
use thinking_feature_flag_se.Evaluation.Rules.{IsMalformed, malformed_misses}

abbrev pub at_percentage : FlagSnapshot → ℕ → FlagSnapshot
at_percentage s p = record s { rollout_percentage = p }

module _ (platform : Platform) (user_id : String) (context : Context) (s : FlagSnapshot) where
  -- Raising the percentage changes the evaluation of no user, but of one who was outside the rollout
  -- and is inside now.
  pub widening_adds :
      (p p' : ℕ)
      → p ≤ p'
      → (evaluate platform (at_percentage s p') user_id context
          ≡ evaluate platform (at_percentage s p) user_id context)
        ⊎ (((evaluate platform (at_percentage s p) user_id context).reason ≡ outside_rollout)
            × ((evaluate platform (at_percentage s p') user_id context).reason ≡ in_rollout))
  unfolding evaluate by_rollout
  widening_adds p p' h = ground arith

  -- A user whom the rollout reaches keeps the value at every higher percentage.
  pub in_rollout_stays :
      (p p' : ℕ)
      → p ≤ p'
      → (evaluate platform (at_percentage s p) user_id context).reason ≡ in_rollout
      → evaluate platform (at_percentage s p') user_id context
        ≡ evaluate platform (at_percentage s p) user_id context
  unfolding evaluate by_rollout
  in_rollout_stays p p' h e = ground arith

  -- At 100 percent or more nobody is outside the rollout, and at 0 percent nobody is inside.
  pub rollout_ends :
      (s.rollout_percentage ≡ 100 → (evaluate platform s user_id context).reason ≢ outside_rollout)
      × (s.rollout_percentage ≡ 0 → (evaluate platform s user_id context).reason ≢ in_rollout)
  unfolding evaluate by_rollout
  rollout_ends =
      (λ full e. ground (arith, bucket_for-lt platform s.key user_id), λ nil e. ground arith)

  -- An enabled flag whose rules are all malformed serves its value, and not its default, to every
  -- user whose bucket lies below the percentage.
  pub malformed_rules_serve_value :
      s.is_archived ≡ false
      → s.enabled ≡ true
      → All (IsMalformed user_id context) s.targeting_rules
      → bucket_for platform s.key user_id < s.rollout_percentage
      → evaluate platform s user_id context ≡ serves s (some s.value) in_rollout
  malformed_rules_serve_value a on malformed inside =
      (evaluate-iff-Resolves platform user_id context s _).0 (
        when_inside a on
          (All-map (malformed_misses platform user_id context) s.targeting_rules malformed) inside
          refl)
