-- ===== src/Metrics.antt =====
-- The in-process metrics (thinking-feature-flag-service/app/metrics.py). A latency is a
-- float of milliseconds, counted in steps of the smallest positive float, of which every float that is
-- not negative is a whole number; an instant is a whole number of microseconds. The rates that the
-- module rounds for printing are kept as their numerators and denominators. The lock makes each
-- operation one step.
pub mod Counts
pub mod Percentiles
use thinking_feature_flag_se.Common.{
  ℕ, zero, suc, ◌+◌, ◌-◌, ◌*◌, String, Bool, true, false, ◌&&◌, List, [], ◌∷◌, ◌++◌, map, ltb, leb,
  ◌==◌, nat_eq, string_eq, if◌then◌else◌, length, select, order_by,
}
use thinking_feature_flag_se.Models.{Instant}
use thinking_feature_flag_se.Cache.{CacheStats, CacheReport, cache_stats}

abbrev pub max_samples : ℕ
max_samples = 10000

-- (tenant_id, endpoint)
abbrev pub Label : Type 0
Label = String × String

abbrev pub same_label : Label → Label → Bool
same_label a b = a.0 == b.0 && a.1 == b.1

-- A `defaultdict(int)`
abbrev pub Counter : Type 0
Counter = List (Label × ℕ)

pub record Metrics : Type 0 where
  pub started_at : Instant
  pub latencies : List ℕ
  pub evaluations : List (Instant × String)
  pub flag_evaluations : ℕ
  pub errors : Counter
  pub requests : Counter

abbrev pub no_metrics : Metrics
no_metrics = record {
  started_at = 0;
  latencies = [];
  evaluations = [];
  flag_evaluations = 0;
  errors = [];
  requests = [];
}

module _ {ℓ} {A : Type ℓ} where
  drop_oldest : List A → List A
  drop_oldest [] = []
  drop_oldest (x ∷ xs) = xs

  -- `append` on a `deque(maxlen=…)`
  pub deque_append : ℕ → List A → A → List A
  unfolding drop_oldest
  deque_append maxlen xs x =
      if ltb (length xs) maxlen then xs ++ x ∷ [] else drop_oldest (xs ++ x ∷ [])

-- `counts.get(key, 0)`
unfoldable pub count_of : Label → Counter → ℕ
count_of label [] = 0
count_of label ((l, n) ∷ counts) = if same_label l label then n else count_of label counts

-- `counts[key] += 1`
unfoldable pub increment : Label → Counter → Counter
increment label [] = (label, 1) ∷ []
increment label ((l, n) ∷ counts) =
    if same_label l label then (l, n + 1) ∷ counts else (l, n) ∷ increment label counts

unfoldable pub record_evaluation : String → ℕ → ℕ → Instant → Metrics → Metrics
unfolding deque_append
record_evaluation tenant_id duration flag_count now m = record m {
  latencies = deque_append max_samples m.latencies duration;
  evaluations = deque_append max_samples m.evaluations (now, tenant_id);
  flag_evaluations = m.flag_evaluations + flag_count;
}

unfoldable pub record_request : String → String → ℕ → Metrics → Metrics
unfolding increment
record_request tenant_id endpoint status_code m = record m {
  requests = increment (tenant_id, endpoint) m.requests;
  errors = if leb 500 status_code then increment (tenant_id, endpoint) m.errors else m.errors;
}

-- `sorted(…)`
abbrev pub sorted : List ℕ → List ℕ
sorted = order_by leb

element_at : List ℕ → ℕ → ℕ
element_at [] i = 0
element_at (x ∷ xs) zero = x
element_at (x ∷ xs) (suc i) = element_at xs i

-- `min`
abbrev smaller : ℕ → ℕ → ℕ
smaller a b = if leb a b then a else b

-- `_percentile`, where `rank n` is `int(n * pct)`, the whole part of a float product, and `round3 x` is
-- `round(x, 3)`
unfoldable pub percentile : (ℕ → ℕ) → (ℕ → ℕ) → List ℕ → ℕ
unfolding element_at
percentile round3 rank [] = 0
percentile round3 rank (x ∷ xs) =
    let n = length (x ∷ xs) in round3 (element_at (x ∷ xs) (smaller (rank n) (n - 1)))

pub record ErrorRate : Type 0 where
  pub label : Label
  pub total : ℕ
  pub failed : ℕ

pub record Snapshot : Type 0 where
  pub uptime : ℕ
  pub p50 : ℕ
  pub p95 : ℕ
  pub p99 : ℕ
  pub samples : ℕ
  pub recent_total : ℕ
  pub recent_by_tenant : List (String × ℕ)
  pub flag_evaluations_total : ℕ
  pub error_rates : List ErrorRate
  pub cache : CacheReport

-- `per_tenant[tenant] += 1`
bump : String → List (String × ℕ) → List (String × ℕ)
bump tenant [] = (tenant, 1) ∷ []
bump tenant ((t, n) ∷ counts) =
    if t == tenant then (t, n + 1) ∷ counts else (t, n) ∷ bump tenant counts

tally : List (Instant × String) → List (String × ℕ) → List (String × ℕ)
unfolding bump
tally [] counts = counts
tally ((ts, tenant) ∷ recent) counts = tally recent (bump tenant counts)

-- `now - ts <= 60`, in microseconds
abbrev window : ℕ
window = 60000000

abbrev is_recent : Instant → Instant × String → Bool
is_recent now (ts, tenant) = leb now (ts + window)

error_rate : Counter → Label × ℕ → ErrorRate
unfolding count_of
error_rate errors (label, total) = record {
  label = label;
  total = total;
  failed = count_of label errors;
}

-- `round3` rounds to three digits, as `round(…, 3)` does; the ranks are those of `_percentile` at 0.50,
-- 0.95 and 0.99.
unfoldable pub snapshot :
    (ℕ → ℕ) → (ℕ → ℕ) → (ℕ → ℕ) → (ℕ → ℕ) → Instant → CacheStats → Metrics → Snapshot
unfolding percentile order_by tally error_rate cache_stats
snapshot round3 rank50 rank95 rank99 now stats m =
    let latencies = sorted m.latencies in
    let recent = select (is_recent now) m.evaluations in
    record {
      uptime = now - m.started_at;
      p50 = percentile round3 rank50 latencies;
      p95 = percentile round3 rank95 latencies;
      p99 = percentile round3 rank99 latencies;
      samples = length latencies;
      recent_total = length recent;
      recent_by_tenant = tally recent [];
      flag_evaluations_total = m.flag_evaluations;
      error_rates = map (error_rate m.errors) m.requests;
      cache = cache_stats stats;
    }
