-- ===== src/Metrics/Percentiles.antt =====
-- The latency percentiles of app/metrics.py.
use mathlib.Core.List.{Perm}
use mathlib.Core.List.Perm
use thinking_feature_flag_se.Common.{
  Bool-cases, length-order_by, length-select-order_by, ◌+◌, ltb, select, subst, All-map, ℕ, zero,
  suc, ◌-◌, ◌<◌, ◌≤◌, ◌≡◌, ◌≢◌, ◌⊎◌, inl, inr, refl, sym, List, [], ◌∷◌, leb, length, All, All-at,
  In, here, there, arith, order_by-perm, All-order_by, Ordered, order_by-Ordered,
}
use thinking_feature_flag_se.Models.{Instant}
use thinking_feature_flag_se.Cache.{CacheStats}
use thinking_feature_flag_se.Metrics.{
  Metrics, Snapshot, sorted, element_at, smaller, percentile, snapshot,
}

-- A number of the list, if there is one.
element_at-In : (xs : List ℕ) (i : ℕ) → i < length xs → In (element_at xs i) xs
unfolding element_at
element_at-In [] i h = absurd (omega arith)
element_at-In (x ∷ xs) zero h = here
element_at-In (x ∷ xs) (suc i) h = there (element_at-In xs i (omega arith))

element_at-le :
    (xs : List ℕ) (i j : ℕ)
    → Ordered (λ x y. x ≤ y) xs
    → i ≤ j
    → j < length xs
    → element_at xs i ≤ element_at xs j
unfolding element_at
element_at-le [] i j o le h = absurd (omega arith)
element_at-le (x ∷ xs) zero zero o le h = omega arith
element_at-le (x ∷ xs) zero (suc j) o le h =
    All-at (λ y. x ≤ y) (element_at-In xs j (omega arith)) o.0
element_at-le (x ∷ xs) (suc i) zero o le h = absurd (omega arith)
element_at-le (x ∷ xs) (suc i) (suc j) o le h = element_at-le xs i j o.1 (omega arith) (omega arith)

sorted-Ordered : (xs : List ℕ) → Ordered (λ x y. x ≤ y) (sorted xs)
sorted-Ordered =
    order_by-Ordered leb (λ x y. x ≤ y) (λ x y h. ground arith) (λ x y h. ground arith)
      (λ x y z h h'. omega arith)

All-In : (xs : List ℕ) → All (λ x. In x xs) xs
All-In [] = tt
All-In (x ∷ xs) = (here, All-map (λ y place. there place) xs (All-In xs))

smaller-le : (a b n : ℕ) → a ≤ b → smaller a n ≤ smaller b n
smaller-le a b n h = ground arith

smaller-lt : (a n : ℕ) → smaller a (suc n - 1) < suc n
smaller-lt a n = ground arith

-- The smaller one of a rank and the last index of a list of `n`.
abbrev pub IsIndex : ℕ → ℕ → ℕ → Type 0
IsIndex rank n i = (i ≤ rank) × (i < n) × ((i ≡ rank) ⊎ (i + 1 ≡ n))

-- A sample that comes at the index `i` in ascending order: at most `i` of the samples are below it, and
-- more than `i` are not above it.
abbrev pub ComesAt : ℕ → List ℕ → ℕ → Type 0
ComesAt i samples x =
    In x samples
    × (length (select (λ y. ltb y x) samples) ≤ i)
    × (i < length (select (λ y. leb y x) samples))

-- The rounded latency of the sample at a rank, or at the last index if the rank is above it.
abbrev pub IsRanked : (ℕ → ℕ) → (ℕ → ℕ) → List ℕ → ℕ → Type 0
IsRanked round3 rank samples p =
    (i : ℕ) × (x : ℕ) × IsIndex (rank (length samples)) (length samples) i
    × ComesAt i samples x
    × (p ≡ round3 x)

none_below : (x : ℕ) (xs : List ℕ) → All (λ y. x ≤ y) xs → length (select (λ y. ltb y x) xs) ≡ 0
none_below x [] h = refl
none_below x (y ∷ xs) h =
    let rest = none_below x xs h.1 in let above = h.0 in ground (arith, rest, above)

below_le :
    (xs : List ℕ) (i : ℕ)
    → Ordered (λ x y. x ≤ y) xs
    → i < length xs
    → length (select (λ y. ltb y (element_at xs i)) xs) ≤ i
unfolding element_at
below_le [] i o h = absurd (omega arith)
below_le (x ∷ xs) zero o h = let rest = none_below x xs o.0 in ground (arith, rest)
below_le (x ∷ xs) (suc i) o h = let rest = below_le xs i o.1 (omega arith) in ground (arith, rest)

upto_lt :
    (xs : List ℕ) (i : ℕ)
    → Ordered (λ x y. x ≤ y) xs
    → i < length xs
    → i < length (select (λ y. leb y (element_at xs i)) xs)
unfolding element_at
upto_lt [] i o h = absurd (omega arith)
upto_lt (x ∷ xs) zero o h = ground arith
upto_lt (x ∷ xs) (suc i) o h =
    let rest = upto_lt xs i o.1 (omega arith) in
    let low = All-at (λ y. x ≤ y) (element_at-In xs i (omega arith)) o.0 in
    ground (arith, rest, low)

smaller-IsIndex : (r n : ℕ) → IsIndex r (suc n) (smaller r (suc n - 1))
smaller-IsIndex r n = (
  ground arith,
  ground arith,
  elim (Bool-cases (leb r (suc n - 1))) [
    | inl within ↦ rw within (inl refl)
    | inr above ↦ rw above (inr (omega arith))
  ],
)

percentile-le :
    (round3 low high : ℕ → ℕ) (xs : List ℕ)
    → ((x y : ℕ) → x ≤ y → round3 x ≤ round3 y)
    → ((n : ℕ) → low n ≤ high n)
    → Ordered (λ x y. x ≤ y) xs
    → percentile round3 low xs ≤ percentile round3 high xs
unfolding percentile
percentile-le round3 low high [] mono le o = omega arith
percentile-le round3 low high (x ∷ xs) mono le o =
    let n = length (x ∷ xs) in
    mono (element_at (x ∷ xs) (smaller (low n) (n - 1)))
      (element_at (x ∷ xs) (smaller (high n) (n - 1)))
      (element_at-le (x ∷ xs) (smaller (low n) (n - 1)) (smaller (high n) (n - 1)) o
        (smaller-le (low n) (high n) (n - 1) (le n)) (smaller-lt (high n) (length xs)))

-- In a list in ascending order the sample at an index comes there, for the list itself and for any
-- list with the same numbers.
element_at-ComesAt :
    (samples : List ℕ) (i : ℕ)
    → i < length (sorted samples)
    → ComesAt i samples (element_at (sorted samples) i)
element_at-ComesAt samples i h =
    let x = element_at (sorted samples) i in
    let o = sorted-Ordered samples in
    (
      All-at (λ y. In y samples) (element_at-In (sorted samples) i h)
          (All-order_by leb (λ y. In y samples) samples (All-In samples)),
      subst (λ n. n ≤ i) (length-select-order_by leb (λ y. ltb y x) samples)
          (below_le (sorted samples) i o h),
      subst (λ n. i < n) (length-select-order_by leb (λ y. leb y x) samples)
          (upto_lt (sorted samples) i o h),
    )

percentile-some :
    (round3 rank : ℕ → ℕ) (xs : List ℕ)
    → xs ≢ []
    → (i : ℕ) × IsIndex (rank (length xs)) (length xs) i
      × (percentile round3 rank xs ≡ round3 (element_at xs i))
unfolding percentile
percentile-some round3 rank [] some_there = absurd (some_there refl)
percentile-some round3 rank (x ∷ xs) some_there =
    (_, smaller-IsIndex (rank (length (x ∷ xs))) (length xs), refl)

percentile-IsRanked :
    (round3 rank : ℕ → ℕ) (samples : List ℕ)
    → sorted samples ≢ []
    → IsRanked round3 rank samples (percentile round3 rank (sorted samples))
percentile-IsRanked round3 rank samples some_there =
    let (i, index, same) = percentile-some round3 rank (sorted samples) some_there in
    (
      i,
      element_at (sorted samples) i,
      subst (λ n. IsIndex (rank n) n i) (length-order_by leb samples) index,
      element_at-ComesAt samples i index.1,
      same,
    )

sorted-some : (xs : List ℕ) → xs ≢ [] → sorted xs ≢ []
sorted-some xs some_there none_sorted =
    some_there (sym (Perm.nil-eq (subst (λ l. Perm l xs) none_sorted (order_by-perm leb xs))))

empty-cases : (xs : List ℕ) → (xs ≡ []) ⊎ (xs ≢ [])
empty-cases [] = inl refl
empty-cases (x ∷ xs) = inr (λ e. cc (e))

module _ (round3 rank50 rank95 rank99 : ℕ → ℕ) (now : Instant) (stats : CacheStats) (m : Metrics)
    (mono : (x y : ℕ) → x ≤ y → round3 x ≤ round3 y)
    (rises : (n : ℕ) → (rank50 n ≤ rank95 n) × (rank95 n ≤ rank99 n)) where
  abbrev reported : Snapshot
  reported = snapshot round3 rank50 rank95 rank99 now stats m

  -- Where rounding keeps the order of floats and a higher percentage gives no lower rank: the reported
  -- percentiles do not fall from the median to the 99th, and either there are no samples, or each of
  -- them is the rounded latency of the sample that comes, in ascending order, at its rank, or at the
  -- last index if the rank is above that.
  pub snapshot-percentiles :
      (reported.p50 ≤ reported.p95)
      × (reported.p95 ≤ reported.p99)
      × ((m.latencies ≡ [])
          ⊎ (IsRanked round3 rank50 m.latencies reported.p50
              × IsRanked round3 rank95 m.latencies reported.p95
              × IsRanked round3 rank99 m.latencies reported.p99))
  unfolding snapshot
  snapshot-percentiles =
      let ordered = sorted-Ordered m.latencies in
      (
        percentile-le round3 rank50 rank95 (sorted m.latencies) mono (λ n. (rises n).0) ordered,
        percentile-le round3 rank95 rank99 (sorted m.latencies) mono (λ n. (rises n).1) ordered,
        elim (empty-cases m.latencies) [
          | inl none_there ↦ inl none_there
          | inr some_there ↦
              let kept = sorted-some m.latencies some_there in
              inr (
                percentile-IsRanked round3 rank50 m.latencies kept,
                percentile-IsRanked round3 rank95 m.latencies kept,
                percentile-IsRanked round3 rank99 m.latencies kept,
              )
        ],
      )
