-- ===== src/Values/Equality.antt =====
-- Laws of Python's `==` on flag values (the `in`, `!=` and `==` of app/evaluation.py and
-- app/routers/flags.py).
use package.text.Mathlib.TextEquality.{eq_iff}
use thinking_feature_flag_se.Common.{◌≡◌, refl, true, some, arith, ◌⊎◌}
use thinking_feature_flag_se.Values.{
  FlagValue, FlagType, bool, int, float, str, boolean, string, equals, value_matches_type,
}

pub equals_refl : (a : FlagValue) → equals a a ≡ true
unfolding equals
equals_refl (bool true) = refl
equals_refl (bool b) = ground arith
equals_refl (int n) = ground arith
equals_refl (float m k) = ground arith
equals_refl (str s) = (eq_iff s s).1 refl

-- Among the values of a boolean or of a string flag, `==` is equality.
pub equals-matched :
    (t : FlagType) (a b : FlagValue)
    → (t ≡ boolean) ⊎ (t ≡ string)
    → value_matches_type (some a) t ≡ true
    → value_matches_type (some b) t ≡ true
    → equals a b ≡ true
    → a ≡ b
unfolding equals value_matches_type
equals-matched boolean (bool a) (bool b) h p q e = ground arith
equals-matched string (str a) (str b) h p q e = ground (arith, eq_iff a b)
equals-matched t a b h p q e = ground arith
