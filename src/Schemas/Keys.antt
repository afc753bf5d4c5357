-- ===== src/Schemas/Keys.antt =====
-- The pattern for flag keys (app/schemas.py) and the hash input of `bucket_for`.
use thinking_feature_flag_se.Common.{ℕ, ◌≡◌, String, true, List, [], ◌∷◌, all, arith}
use thinking_feature_flag_se.Common.Texts.{codes, Lacks}
use thinking_feature_flag_se.Evaluation.{hashed_text}
use thinking_feature_flag_se.Evaluation.Bucket.{hashed_text-injective}
use thinking_feature_flag_se.Schemas.{FlagCreate, is_key_char, is_key, check_flag_create}

key_chars-Lacks : (s : List ℕ) → all is_key_char s ≡ true → Lacks b':' s
key_chars-Lacks [] h = tt
key_chars-Lacks (c ∷ s) h = (λ e. ground arith, key_chars-Lacks s (ground arith))

pub key-Lacks : (s : String) → is_key s ≡ true → Lacks b':' (codes s)
unfolding is_key
key-Lacks s h = key_chars-Lacks (codes s) (ground arith)

-- Of two flags that validation accepts, two users get one hash input only if flag and user agree.
pub valid_keys_hash_apart :
    (p p' : FlagCreate) (user_id user_id' : String)
    → check_flag_create p ≡ true
    → check_flag_create p' ≡ true
    → hashed_text p.key user_id ≡ hashed_text p'.key user_id'
    → (p.key ≡ p'.key) × (user_id ≡ user_id')
unfolding check_flag_create
valid_keys_hash_apart p p' u u' h h' e =
    hashed_text-injective p.key p'.key u u' (key-Lacks p.key (ground arith))
      (key-Lacks p'.key (ground arith)) e
