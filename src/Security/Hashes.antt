-- ===== src/Security/Hashes.antt =====
-- The text of a key's hash (`hash_api_key` of app/security.py).
use thinking_feature_flag_se.Common.{
  ℕ, ◌/◌, ◌%◌, ◌≡◌, refl, String, ◌<>◌, Bool, true, not, List, [], ◌∷◌, ◌==◌, nat_eq, zero, suc,
  all, arith,
}
use thinking_feature_flag_se.Common.Texts.{codes, codes-append, Lacks, Lacks-append}
use thinking_feature_flag_se.Evaluation.{Platform}
use thinking_feature_flag_se.Security.{hex_digits, digit_at, hex, hash_api_key}

abbrev lacks_colon : List ℕ → Bool
lacks_colon s = all (λ c. not (c == b':')) s

lacks_colon-Lacks : (s : List ℕ) → lacks_colon s ≡ true → Lacks b':' s
lacks_colon-Lacks [] h = tt
lacks_colon-Lacks (c ∷ s) h = ((λ e. ground arith), lacks_colon-Lacks s (ground arith))

digit_at-lacks_colon :
    (digits : List String) (n : ℕ)
    → all (λ d. lacks_colon (codes d)) digits ≡ true
    → lacks_colon (codes (digit_at digits n)) ≡ true
unfolding digit_at
digit_at-lacks_colon [] n h = refl
digit_at-lacks_colon (d ∷ digits) zero h = ground arith
digit_at-lacks_colon (d ∷ digits) (suc n) h = digit_at-lacks_colon digits n (ground arith)

hex_digit-Lacks : (n : ℕ) → Lacks b':' (codes (digit_at hex_digits n))
unfolding hex_digits
hex_digit-Lacks n = lacks_colon-Lacks _ (digit_at-lacks_colon hex_digits n refl)

hex-Lacks : (bytes : List ℕ) → Lacks b':' (codes (hex bytes))
unfolding hex
hex-Lacks [] = tt
hex-Lacks (byte ∷ bytes) =
    rw
      (
        codes-append (digit_at hex_digits (byte / 16))
            (digit_at hex_digits (byte % 16) <> hex bytes),
        codes-append (digit_at hex_digits (byte % 16)) (hex bytes),
      )
      (Lacks-append b':' (codes (digit_at hex_digits (byte / 16))) _ (hex_digit-Lacks (byte / 16)) (
        Lacks-append b':' (codes (digit_at hex_digits (byte % 16))) _ (hex_digit-Lacks (byte % 16))
          (hex-Lacks bytes)))

-- The hash of a key holds no colon.
pub hash_api_key-Lacks :
    (platform : Platform) (raw_key : String) → Lacks b':' (codes (hash_api_key platform raw_key))
unfolding hash_api_key
hash_api_key-Lacks platform raw_key = hex-Lacks (platform.sha256 raw_key)
