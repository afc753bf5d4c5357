-- ===== src/Evaluation/Precedence.antt =====
-- The order in which `evaluate` of app/evaluation.py decides, against a description of it by rules.
use thinking_feature_flag_se.Common.{
  ◌<◌, ◌≤◌, ◌≡◌, refl, sym, subst, ◌≢◌, ◌↔◌, ◌⊎◌, inl, inr, String, true, false, Option, none, some,
  List, [], ◌∷◌, All, arith, first, Bool-cases, Option-cases, leb,
}
use thinking_feature_flag_se.Values.{FlagValue}
use thinking_feature_flag_se.Evaluation.{
  Platform, Context, Rule, FlagSnapshot, Evaluation, Reason, bucket_for, matches, evaluate,
  by_rollout, archived, disabled, targeting_match, outside_rollout, in_rollout, no_config,
}

-- What a snapshot serves, and why.
abbrev pub serves : FlagSnapshot → Option FlagValue → Reason → Evaluation
serves snapshot value reason = record { key = snapshot.key; value = value; reason = reason }

module _ (platform : Platform) (user_id : String) (context : Context) where
  abbrev pub Misses : Rule → Type 0
  Misses rule = matches platform rule user_id context ≡ false

  -- `rule` is the first of the rules that matches.
  pub data FirstMatch (rule : Rule) : List Rule → Type 0 where
    hit :
        {rules : List Rule}
        → matches platform rule user_id context ≡ true
        → FirstMatch rule (rule ∷ rules)
    skip :
        {other : Rule} {rules : List Rule}
        → Misses other
        → FirstMatch rule rules
        → FirstMatch rule (other ∷ rules)

  first-FirstMatch :
      (rules : List Rule) (rule : Rule)
      → first (λ r. matches platform r user_id context) rules ≡ some rule
      → FirstMatch rule rules
  first-FirstMatch [] rule e = cc
  first-FirstMatch (r ∷ rules) rule e = elim (Bool-cases (matches platform r user_id context)) [
    | inl matched ↦
        subst (λ q. FirstMatch q (r ∷ rules)) (ground arith) (hit {rules = rules} matched)
    | inr missed ↦ skip missed (first-FirstMatch rules rule (ground arith))
  ]

  FirstMatch-first :
      {rule : Rule} {rules : List Rule}
      → FirstMatch rule rules
      → first (λ r. matches platform r user_id context) rules ≡ some rule
  FirstMatch-first (hit h) = rw h
  FirstMatch-first (skip h later) = rw h (FirstMatch-first later)

  first-Misses :
      (rules : List Rule)
      → first (λ r. matches platform r user_id context) rules ≡ none
      → All Misses rules
  first-Misses [] e = tt
  first-Misses (r ∷ rules) e = ground (arith, first-Misses rules)

  pub Misses-first :
      (rules : List Rule)
      → All Misses rules
      → first (λ r. matches platform r user_id context) rules ≡ none
  Misses-first [] h = refl
  Misses-first (r ∷ rules) h = rw (h.0) (Misses-first rules h.1)

  -- The five ways to resolve a flag, each with all that it requires.
  pub data Resolves (s : FlagSnapshot) (e : Evaluation) : Type 0 where
    when_archived :
        s.is_archived ≡ true → e ≡ serves s (some s.default_value) archived → Resolves s e
    when_disabled :
        s.is_archived ≡ false
        → s.enabled ≡ false
        → e ≡ serves s (some s.default_value) disabled
        → Resolves s e
    when_targeted :
        (rule : Rule)
        → s.is_archived ≡ false
        → s.enabled ≡ true
        → FirstMatch rule s.targeting_rules
        → e ≡ serves s rule.value targeting_match
        → Resolves s e
    when_outside :
        s.is_archived ≡ false
        → s.enabled ≡ true
        → All Misses s.targeting_rules
        → s.rollout_percentage ≤ bucket_for platform s.key user_id
        → e ≡ serves s (some s.default_value) outside_rollout
        → Resolves s e
    when_inside :
        s.is_archived ≡ false
        → s.enabled ≡ true
        → All Misses s.targeting_rules
        → bucket_for platform s.key user_id < s.rollout_percentage
        → e ≡ serves s (some s.value) in_rollout
        → Resolves s e

  evaluate-Resolves : (s : FlagSnapshot) → Resolves s (evaluate platform s user_id context)
  unfolding evaluate
  evaluate-Resolves s = elim (Bool-cases s.is_archived) [
    | inl gone ↦ when_archived gone (ground arith)
    | inr a ↦ elim (Bool-cases s.enabled) [
      | inr off ↦ when_disabled a off (ground arith)
      | inl on ↦
          elim (Option-cases (first (λ r. matches platform r user_id context) s.targeting_rules)) [
            | inr (rule, found) ↦
                when_targeted rule a on (first-FirstMatch s.targeting_rules rule found)
                  (rw (a, on, found))
            | inl missed ↦
                elim (Bool-cases (leb s.rollout_percentage (bucket_for platform s.key user_id))) [
                  | inl outside ↦
                      when_outside a on (first-Misses s.targeting_rules missed) (ground arith)
                        (rw (a, on, missed) (ground arith))
                  | inr inside ↦
                      when_inside a on (first-Misses s.targeting_rules missed) (ground arith)
                        (rw (a, on, missed) (ground arith))
                ]
          ]
    ]
  ]

  Resolves-evaluate :
      {s : FlagSnapshot} {e : Evaluation} → Resolves s e → evaluate platform s user_id context ≡ e
  unfolding evaluate by_rollout
  Resolves-evaluate (when_archived a q) = rw a (sym q)
  Resolves-evaluate (when_disabled a b q) = rw (a, b) (sym q)
  Resolves-evaluate (when_targeted rule a b m q) = rw (a, b, FirstMatch-first m) (sym q)
  Resolves-evaluate {s} (when_outside a b m p q) =
      rw (a, b, Misses-first s.targeting_rules m) (ground arith)
  Resolves-evaluate {s} (when_inside a b m p q) =
      rw (a, b, Misses-first s.targeting_rules m) (ground arith)

-- `evaluate` returns `e` exactly when `e` is what the precedence prescribes: archived, else disabled,
-- else the first rule that matches, else the rollout, each step only if no earlier one applies.
pub evaluate-iff-Resolves :
    (platform : Platform) (user_id : String) (context : Context) (s : FlagSnapshot) (e : Evaluation)
    → Resolves platform user_id context s e ↔ (evaluate platform s user_id context ≡ e)
evaluate-iff-Resolves platform user_id context s e = (
  Resolves-evaluate platform user_id context,
  λ q. subst (Resolves platform user_id context s) q (evaluate-Resolves platform user_id context s),
)

-- A flag that is archived or disabled serves its default to every user, whatever its rules say.
pub kill_switch :
    (platform : Platform) (user_id : String) (context : Context) (s : FlagSnapshot)
    → (s.is_archived ≡ true) ⊎ (s.enabled ≡ false)
    → (evaluate platform s user_id context).value ≡ some s.default_value
unfolding evaluate
kill_switch platform user_id context s (inl gone) = rw gone
kill_switch platform user_id context s (inr off) = ground arith

-- No evaluation gives the reason `no_config`.
pub evaluate-ne-no_config :
    (platform : Platform) (user_id : String) (context : Context) (s : FlagSnapshot)
    → (evaluate platform s user_id context).reason ≢ no_config
unfolding evaluate by_rollout
evaluate-ne-no_config platform user_id context s e = ground arith
