-- ===== src/Evaluation/Bucket.antt =====
-- `bucket_for` of app/evaluation.py: the range of a bucket, and what is hashed.
use thinking_feature_flag_se.Common.{ℕ, ◌<◌, ◌^◌, ◌≡◌, String, List, [], ◌∷◌, All, take, arith}
use thinking_feature_flag_se.Common.Texts.{codes, Lacks, colon_cuts}
use thinking_feature_flag_se.Evaluation.{
  Platform, bucket_space, from_bytes, bucket_for, hashed_text,
}

-- Every bucket lies in [0, 100), whatever the digest is.
pub bucket_for-lt :
    (platform : Platform) (flag_key user_id : String)
    → bucket_for platform flag_key user_id < bucket_space
unfolding bucket_for
bucket_for-lt platform flag_key user_id = omega arith

-- The first four bytes of a digest are read as a 32-bit number: it does not overflow a uint32.
pub from_bytes-lt :
    (digest : List ℕ) → All (λ b. b < 256) digest → from_bytes (take 4 digest) < 2 ^ 32
unfolding from_bytes
from_bytes-lt [] h = omega arith
from_bytes-lt (a ∷ []) h = omega arith
from_bytes-lt (a ∷ b ∷ []) h = omega arith
from_bytes-lt (a ∷ b ∷ c ∷ []) h = omega arith
from_bytes-lt (a ∷ b ∷ c ∷ d ∷ rest) h = omega arith

-- Two flags whose keys hold no colon share a hashed text only if they are the same flag and the
-- same user.
pub hashed_text-injective :
    (flag_key flag_key' user_id user_id' : String)
    → Lacks b':' (codes flag_key)
    → Lacks b':' (codes flag_key')
    → hashed_text flag_key user_id ≡ hashed_text flag_key' user_id'
    → (flag_key ≡ flag_key') × (user_id ≡ user_id')
hashed_text-injective k k' u u' h h' e = colon_cuts k k' u u' h h' e
