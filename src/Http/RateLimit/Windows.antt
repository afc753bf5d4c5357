-- ===== src/Http/RateLimit/Windows.antt =====
-- Which requests share a counter of the limiter, and when a client gets a new one (app/middleware.py).
use Prim.Native.Char.{code}
use mathlib.Core.Path.{ap₂}
use text.Mathlib.TextLemmas.{append_cancel_left}
use thinking_feature_flag_se.Common.{
  ℕ, ◌+◌, ◌*◌, ◌/◌, ◌≤◌, ◌≡◌, ◌≢◌, ◌↔◌, ◌∙◌, refl, sym, ap, String, ◌<>◌, ◌∷◌, zero, suc, take,
  arith,
}
use thinking_feature_flag_se.Common.Texts.{codes, codes-injective, Lacks, colon_cuts}
use thinking_feature_flag_se.Common.Texts.Numbers.{number_text, number_text-injective}
use thinking_feature_flag_se.Models.{Instant}
use thinking_feature_flag_se.Security.{hash_api_key}
use thinking_feature_flag_se.Security.Hashes.{hash_api_key-Lacks}
use thinking_feature_flag_se.Services.{Services}
use thinking_feature_flag_se.Http.RateLimit.{
  prefix, second, window_of, seconds_left, identity, limit_key,
}

prefix-Lacks : (x n : ℕ) (s : String) → Lacks x (codes s) → Lacks x (codes (prefix n s))
unfolding prefix
prefix-Lacks x zero s h = tt
prefix-Lacks x (suc n) String.[] h = tt
prefix-Lacks x (suc n) (String.◌∷◌ c s) h = (h.0, prefix-Lacks x n s h.1)

codes-prefix : (n : ℕ) (s : String) → codes (prefix n s) ≡ take n (codes s)
unfolding prefix
codes-prefix zero s = refl
codes-prefix (suc n) String.[] = refl
codes-prefix (suc n) (String.◌∷◌ c s) = ap (λ l. code c ∷ l) (codes-prefix n s)

limit_key-injective :
    (services : Services) (a b : String) (now later : Instant)
    → limit_key services a now ≡ limit_key services b later
    → (identity services a ≡ identity services b) × (window_of now ≡ window_of later)
unfolding limit_key
limit_key-injective services a b now later same =
    let hash = hash_api_key services.platform in
    let cut =
      colon_cuts (identity services a) (identity services b) (number_text (window_of now))
        (number_text (window_of later))
        (prefix-Lacks b':' 16 (hash a) (hash_api_key-Lacks services.platform a))
        (prefix-Lacks b':' 16 (hash b) (hash_api_key-Lacks services.platform b))
        (append_cancel_left "ratelimit:" _ _ same) in
    (cut.0, number_text-injective (window_of now) (window_of later) cut.1)

identity_iff :
    (services : Services) (a b : String)
    → (identity services a ≡ identity services b) ↔ (
        take 16 (codes (hash_api_key services.platform a))
        ≡ take 16 (codes (hash_api_key services.platform b)))
identity_iff services a b =
    let h = hash_api_key services.platform in
    (
      λ e. sym (codes-prefix 16 (h a)) ∙ ap codes e ∙ codes-prefix 16 (h b),
      λ e.
          codes-injective (identity services a) (identity services b)
            (codes-prefix 16 (h a) ∙ e ∙ sym (codes-prefix 16 (h b))),
    )

-- Two requests are charged to one counter exactly if the hashes of their API keys have the same first 16
-- digits and they come in the same minute of the clock, whatever tenants the keys belong to.
pub limit_key_iff :
    (services : Services) (a b : String) (now later : Instant)
    → (limit_key services a now ≡ limit_key services b later) ↔ (
        (take 16 (codes (hash_api_key services.platform a))
          ≡ take 16 (codes (hash_api_key services.platform b)))
        × (now / 60000000 ≡ later / 60000000))
unfolding limit_key
limit_key_iff services a b now later = (
  λ same.
      let (digits, minute) = limit_key-injective services a b now later same in
      ((identity_iff services a b).0 digits, minute),
  λ (digits, minute).
      ap₂ (λ s n. "ratelimit:" <> s <> ":" <> number_text n) ((identity_iff services a b).1 digits)
        minute,
)

-- After the seconds that a 429 tells the client to wait, at least one and at most a minute, the window
-- is the next one, and the client's requests are charged to another counter.
pub retry_after-next :
    (services : Services) (api_key : String) (later : Instant)
    → let retry = later + seconds_left later * second in
      (1 ≤ seconds_left later)
      × (seconds_left later ≤ 60)
      × (window_of retry ≡ window_of later + 1)
      × (limit_key services api_key retry ≢ limit_key services api_key later)
retry_after-next services api_key later =
    let retry = later + seconds_left later * second in
    let next : window_of retry ≡ window_of later + 1 = omega arith in
    (
      omega arith,
      omega arith,
      next,
      λ same.
          let kept = (limit_key-injective services api_key api_key retry later same).1 in
          omega arith,
    )
