-- ===== src/Gateway/Outcome/Bounds.antt =====
-- What a usage report that is let through says (`_canonical_attempt_outcome` and
-- `_validate_usage_metrics` of src/vgen/gateway/repository.py).
use vgen.Gateway.Db.{Responsibility}
use vgen.Gateway.Outcome.{
  Metric, Metrics, Value, maximum, drop_native, all_allowed, normalize, get, validate_usage_metrics,
  canonical_attempt_outcome, responsibility_index, execution_cancelled_code,
  canonical_responsibility, ok, ErrorSpec, get_error_spec, judge, Result, raise, require,
  positive_count, usage_report_invalid,
}
use vgen.Base.{
  ◌==◌, ◌≡◌, none, some, true, false, arith, Bool, Option, ℕ, is_none, inl, inr, refl, Bool-cases,
  [], ◌∷◌, ◌≤◌, ◌≢◌, List, All, leb, ap, subst,
}
use vgen.Gateway.Tx.{◌>>◌, ◌>>=◌}

same_responsibility :
    (a b : Responsibility) → (responsibility_index a == responsibility_index b) ≡ true → a ≡ b
same_responsibility a b e = ground arith

abbrev pub Outcome : Bool → Option ℕ → Responsibility → Option ℕ × Responsibility → Type 0
Outcome succeeded code reported c =
    (c ≡ (code, reported))
    × (is_none code ≡ succeeded)
    × (succeeded ≡ true → reported ≡ Responsibility.unattributed)
    × (code ≡ some execution_cancelled_code → reported ≡ Responsibility.consumer)

failed :
    (code : ℕ) (reported : Responsibility) (c : Option ℕ × Responsibility) (o : Option ErrorSpec)
    → judge code reported o ≡ ok c
    → Outcome false (some code) reported c
failed code reported c none e = ground arith
failed code reported c (some spec) e =
    let canonical = canonical_responsibility code spec.responsibility in
    elim (Bool-cases (responsibility_index reported == responsibility_index canonical)) [
      | inl agree ↦
          let same = same_responsibility reported canonical agree in
          (ground (arith, same), refl, (λ s. ground arith), λ n. ground (arith, same))
      | inr differ ↦ ground arith
    ]

-- An outcome that is let through is the reported one: it has a failure code just if the attempt did
-- not succeed, a success is unattributed, and a cancellation is the consumer's.
pub canonical_attempt_outcome_lem :
    (succeeded : Bool) (code : Option ℕ) (reported : Responsibility) (c : Option ℕ × Responsibility)
    → canonical_attempt_outcome succeeded code reported ≡ ok c
    → Outcome succeeded code reported c
unfolding canonical_attempt_outcome
canonical_attempt_outcome_lem true none reported c e =
    (ground arith, refl, (λ s. ground arith), λ n. ground arith)
canonical_attempt_outcome_lem true (some code) reported c e = ground arith
canonical_attempt_outcome_lem false none reported c e = ground arith
canonical_attempt_outcome_lem false (some code) reported c e =
    failed code reported c (get_error_spec code) e

abbrev pub is_allowed : Metric → Bool
is_allowed Metric.native = false
is_allowed Metric.unsupported = false
is_allowed _ = true

-- A metric that has a name of the table and a value in its range.
abbrev pub IsWithin : Metric × ℕ → Type 0
IsWithin (m, n) = (is_allowed m ≡ true) × (n ≤ maximum m)

abbrev Allowed : Metric × Value → Type 0
Allowed (m, v) = is_allowed m ≡ true

drop_native-Allowed :
    (ms : List (Metric × Value))
    → all_allowed (drop_native ms) ≡ true
    → All Allowed (drop_native ms)
unfolding drop_native all_allowed
drop_native-Allowed [] a = tt
drop_native-Allowed ((Metric.native, v) ∷ rest) a = drop_native-Allowed rest a
drop_native-Allowed ((Metric.unsupported, v) ∷ rest) a = ground arith
drop_native-Allowed ((m, v) ∷ rest) a = (refl, drop_native-Allowed rest a)

abbrev Normal : Result Metrics → Type 0
Normal (ok out) = All IsWithin out
Normal (raise fault) = Unit

normalize-Normal : (ms : List (Metric × Value)) → All Allowed ms → Normal (normalize ms)
unfolding normalize
normalize-Normal [] a = tt
normalize-Normal ((m, Value.other) ∷ rest) a = tt
normalize-Normal ((m, Value.int n) ∷ rest) a = elim (Bool-cases (leb n (maximum m))) [
  | inl small ↦ rw small (joined (normalize rest) (normalize-Normal rest a.1) (ground arith))
  | inr large ↦ rw large tt
]
  where
    joined :
        (t : Result Metrics) → Normal t → n ≤ maximum m → Normal (t >>= λ tail. ok ((m, n) ∷ tail))
    joined (ok tail) w small = ((a.0, small), w)
    joined (raise fault) w small = tt

zero_count :
    (out : Metrics)
    → positive_count (get Metric.gpu_count out) ≡ true
    → get Metric.gpu_count out ≢ some 0
zero_count out p z = ground (arith, ap positive_count z)

-- A usage report that is let through is recorded without the fields of old workers: each metric has
-- a name of the table and a value from 0 to its maximum, and a reported count of GPUs is not 0.
pub validate_usage_metrics-IsWithin :
    (ms : List (Metric × Value)) (out : Metrics)
    → validate_usage_metrics ms ≡ ok out
    → All IsWithin out × (get Metric.gpu_count out ≢ some 0)
unfolding validate_usage_metrics
validate_usage_metrics-IsWithin ms out e = elim (Bool-cases (all_allowed (drop_native ms))) [
  | inl allowed ↦
      counted (normalize (drop_native ms))
        (normalize-Normal (drop_native ms) (drop_native-Allowed ms allowed)) (rw allowed at e)
  | inr other ↦ ground arith
]
  where
    counted :
        (t : Result Metrics)
        → Normal t
        → (t >>= λ normalized.
            (require (positive_count (get Metric.gpu_count normalized)) usage_report_invalid
              >> ok normalized))
          ≡ ok out
        → All IsWithin out × (get Metric.gpu_count out ≢ some 0)
    counted (ok normalized) w q =
        elim (Bool-cases (positive_count (get Metric.gpu_count normalized))) [
          | inl positive ↦
              let same : normalized ≡ out = ground arith in
              (
                subst (All IsWithin) same w,
                λ z.
                    zero_count out
                      (subst (λ ms. positive_count (get Metric.gpu_count ms) ≡ true) same positive)
                      z,
              )
          | inr null ↦ ground arith
        ]
    counted (raise fault) w q = ground arith
