-- ===== src/Metrics/Counts.antt =====
-- The samples and the counters of app/metrics.py.
use thinking_feature_flag_se.Common.{
  ℕ, ◌+◌, ◌≤◌, ◌≡◌, refl, sym, ap, ◌∙◌, String, true, false, List, [], ◌∷◌, ◌++◌, arith, string_eq,
  if◌then◌else◌, length, Bool-cases, inl, inr, eq_of_test, eq_self,
}
use thinking_feature_flag_se.Models.{Instant}
use thinking_feature_flag_se.Metrics.{
  max_samples, Label, same_label, Counter, Metrics, deque_append, count_of, increment,
  record_evaluation, record_request,
}

-- The samples are within their limit, and no label has more errors than requests.
pub record IsConsistent (m : Metrics) : Type 0 where
  pub latencies : length m.latencies ≤ max_samples
  pub evaluations : length m.evaluations ≤ max_samples
  pub errors : (label : Label) → count_of label m.errors ≤ count_of label m.requests

module _ {ℓ} {A : Type ℓ} where
  length-append_one : (xs : List A) (x : A) → length (xs ++ x ∷ []) ≡ length xs + 1
  length-append_one [] x = refl
  length-append_one (y ∷ xs) x = ground (arith, length-append_one xs x)

  -- A bounded deque stays within its bound.
  length-deque_append :
      (maxlen : ℕ) (xs : List A) (x : A)
      → length xs ≤ maxlen
      → length (deque_append maxlen xs x) ≤ maxlen
  unfolding deque_append
  length-deque_append maxlen [] x h = ground arith
  length-deque_append maxlen (y ∷ xs) x h = ground (arith, length-append_one xs x)

same_label-eq : (a b : Label) → same_label a b ≡ true → a ≡ b
same_label-eq (s, t) (s', t') e =
    cc (eq_of_test s s' (ground arith), eq_of_test t t' (ground arith))

same_label_refl : (a : Label) → same_label a a ≡ true
same_label_refl (s, t) = rw (eq_self s, eq_self t) refl

not_both :
    (l label other : Label)
    → same_label l label ≡ false
    → same_label l other ≡ true
    → same_label label other ≡ false
not_both l label other missed found = elim (Bool-cases (same_label label other)) [
  | inr differ ↦ differ
  | inl same ↦
      let e : l ≡ label = same_label-eq l other found ∙ sym (same_label-eq label other same) in
      absurd (cc (missed, e, same_label_refl label))
]

count_of-increment :
    (label other : Label) (counts : Counter)
    → count_of other (increment label counts)
      ≡ (if same_label label other then count_of other counts + 1 else count_of other counts)
unfolding count_of increment
count_of-increment label other [] = refl
count_of-increment label other ((l, n) ∷ counts) = elim (Bool-cases (same_label l label)) [
  | inl hit ↦
      let same : same_label l other ≡ same_label label other =
        ap (λ k. same_label k other) (same_label-eq l label hit) in
      rw (hit, same) (ground (arith, same))
  | inr missed ↦ elim (Bool-cases (same_label l other)) [
    | inr elsewhere ↦ rw (missed, elsewhere) (count_of-increment label other counts)
    | inl found ↦ rw (missed, found, not_both l label other missed found) refl
  ]
]

-- A request that is recorded keeps the metrics consistent, whatever its status is.
pub record_request-IsConsistent :
    (tenant_id endpoint : String) (status_code : ℕ) (m : Metrics)
    → IsConsistent m
    → IsConsistent (record_request tenant_id endpoint status_code m)
unfolding record_request
record_request-IsConsistent tenant_id endpoint status_code m h = record {
  latencies = h.latencies;
  evaluations = h.evaluations;
  errors = λ label. ground (
    arith,
    h.errors label,
    count_of-increment (tenant_id, endpoint) label m.errors,
    count_of-increment (tenant_id, endpoint) label m.requests,
  );
}

-- An evaluation that is recorded keeps the metrics consistent: neither deque outgrows its limit.
pub record_evaluation-IsConsistent :
    (tenant_id : String) (duration flag_count : ℕ) (now : Instant) (m : Metrics)
    → IsConsistent m
    → IsConsistent (record_evaluation tenant_id duration flag_count now m)
unfolding record_evaluation
record_evaluation-IsConsistent tenant_id duration flag_count now m h = record {
  latencies = length-deque_append max_samples m.latencies duration h.latencies;
  evaluations = length-deque_append max_samples m.evaluations (now, tenant_id) h.evaluations;
  errors = h.errors;
}
