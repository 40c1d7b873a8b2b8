-- ===== src/Gateway/Usage.antt =====
-- The metrics that the ledger records of a finished attempt (`_canonical_usage_metrics`, the
-- derivation for a cancelled attempt in `finish_attempt`, and `_append_ledger` of
-- src/vgen/gateway/repository.py). The ledger's rate snapshot, which is copied, and its hash chain
-- are left out.
pub mod Bounds
use vgen.Base.{
  ℕ, zero, suc, ◌+◌, ◌-◌, ◌*◌, ◌/◌, min, max, Bool, true, false, ◌&&◌, ◌||◌, not, Option, none,
  some, List, [], ◌∷◌, ◌++◌, leb, ltb, ◌==◌, if◌then◌else◌, is_none,
}
use vgen.Gateway.Db.{Db, Responsibility, LedgerEntry}
use vgen.Gateway.Outcome.{Metric, Metrics, metric_index, get, get_or, usage_max_wall_ms}

pub data Flag : Type 0 where
  gateway_wall_report_mismatch : Flag
  gpu_active_exceeds_observed_capacity : Flag
  cancelled_gpu_active_derived_from_executor_wall : Flag

pub record Canonical : Type 0 where
  pub metrics : Metrics
  pub anomaly_flags : List Flag

-- `metrics[name] = value`
unfoldable pub put : Metric → ℕ → Metrics → Metrics
put m n [] = (m, n) ∷ []
put m n ((j, v) ∷ rest) =
    if metric_index j == metric_index m then (j, n) ∷ rest else (j, v) ∷ put m n rest

-- `math.ceil((finished - started) * 1000)`, bounded from both sides: milliseconds of the two
-- times, 0 where the clock went back.
unfoldable pub observed_wall_ms : ℕ → ℕ → ℕ
observed_wall_ms started finished = min usage_max_wall_ms ((finished - started + 999) / 1000)

abbrev distance : ℕ → ℕ → ℕ
distance a b = a - b + (b - a)

abbrev wall_flags : Option ℕ → ℕ → List Flag
wall_flags none observed = []
wall_flags (some reported) observed =
    if ltb (max 1000 (observed / 10)) (distance reported observed)
    then gateway_wall_report_mismatch ∷ []
    else []

abbrev capacity_flags : ℕ → ℕ → ℕ → List Flag
capacity_flags gpu_active count observed =
    if ltb (observed * count + max (1000 * count) (observed * count / 10)) gpu_active
    then gpu_active_exceeds_observed_capacity ∷ []
    else []

unfoldable pub canonical_usage_metrics : Metrics → ℕ → ℕ → Canonical
unfolding observed_wall_ms put get
canonical_usage_metrics reported started finished =
    let observed = observed_wall_ms started finished in
    record {
      metrics = put Metric.gateway_wall_ms observed reported;
      anomaly_flags =
          wall_flags (get Metric.gateway_wall_ms reported) observed
          ++ capacity_flags (get_or Metric.gpu_active_ms 0 reported)
              (get_or Metric.gpu_count 1 reported) observed;
    }

-- A cancelled attempt that reported no GPU time is given its executor time, up to what the gateway
-- observed.
unfoldable pub derive_gpu_active : Bool → Canonical → Canonical
unfolding put get
derive_gpu_active cancellation c =
    if cancellation && is_none (get Metric.gpu_active_ms c.metrics)
    then (let count = get_or Metric.gpu_count 1 c.metrics in
        record {
          metrics =
              put Metric.gpu_active_ms
                (min (get_or Metric.executor_wall_ms 0 c.metrics * count)
                  (get_or Metric.gateway_wall_ms 0 c.metrics * count))
                c.metrics;
          anomaly_flags = c.anomaly_flags ++ cancelled_gpu_active_derived_from_executor_wall ∷ [];
        })
    else c

unfoldable pub append_ledger : ℕ → Canonical → Responsibility → ℕ → Db → Db
unfolding get
append_ledger attempt_id c responsibility stamp db = record db {
  ledger =
      db.ledger
      ++ record {
        attempt_id = attempt_id;
        responsibility = responsibility;
        output_video_duration_ms = get_or Metric.duration_ms 0 c.metrics;
        generation_elapsed_ms = get_or Metric.gateway_wall_ms 0 c.metrics;
        created_at = stamp;
      }
        ∷ [];
}
