-- ===== src/Gateway/Outcome.antt =====
-- The usage report of a finished attempt: who is responsible (`_canonical_attempt_outcome`) and
-- the metrics (`_validate_usage_metrics`, `_canonical_usage_metrics`) of
-- src/vgen/gateway/repository.py. A time is a number of microseconds.
pub mod Bounds
use vgen.Base.{
  ℕ, zero, suc, ◌+◌, ◌-◌, ◌*◌, ◌/◌, ◌^◌, min, max, String, Bool, true, false, ◌&&◌, ◌||◌, not,
  Option, none, some, List, [], ◌∷◌, leb, ltb, ◌==◌, if◌then◌else◌,
}
use vgen.Protocol.Errors
use vgen.Protocol.Errors.{get_error_spec, ErrorSpec}
use vgen.Gateway.Db.{Responsibility}
use vgen.Gateway.Tx.{Result, ok, raise, ◌>>=◌, ◌>>◌, require, found, usage_report_invalid}

-- ErrorCode.EXECUTION_CANCELLED
abbrev pub execution_cancelled_code : ℕ
execution_cancelled_code = 320008

abbrev pub responsibility_index : Responsibility → ℕ
responsibility_index Responsibility.consumer = 0
responsibility_index Responsibility.provider = 1
responsibility_index Responsibility.platform = 2
responsibility_index Responsibility.unattributed = 3

abbrev pub canonical_responsibility : ℕ → Errors.Responsibility → Responsibility
canonical_responsibility code registered =
    if code == execution_cancelled_code then Responsibility.consumer else elim registered [
      | Errors.Responsibility.consumer ↦ Responsibility.consumer
      | Errors.Responsibility.provider ↦ Responsibility.provider
      | Errors.Responsibility.platform ↦ Responsibility.platform
      | Errors.Responsibility.unknown ↦ Responsibility.platform
    ]

-- The verdict on a failure code, by its entry of the registry.
abbrev pub judge : ℕ → Responsibility → Option ErrorSpec → Result (Option ℕ × Responsibility)
judge code reported entry = do
  spec ← found entry usage_report_invalid
  let canonical = canonical_responsibility code spec.responsibility
  require (responsibility_index reported == responsibility_index canonical) usage_report_invalid
  ok (some code, canonical)

unfoldable pub canonical_attempt_outcome :
    Bool → Option ℕ → Responsibility → Result (Option ℕ × Responsibility)
unfolding get_error_spec
canonical_attempt_outcome true none reported = do
  require (responsibility_index reported == 3) usage_report_invalid
  ok (none, Responsibility.unattributed)
canonical_attempt_outcome true (some code) reported = raise usage_report_invalid
canonical_attempt_outcome false none reported = raise usage_report_invalid
canonical_attempt_outcome false (some code) reported = judge code reported (get_error_spec code)

abbrev pub usage_max_wall_ms : ℕ
usage_max_wall_ms = 30 * 24 * 60 * 60 * 1000

pub data Metric : Type 0 where
  gpu_active_ms executor_wall_ms gateway_wall_ms gpu_count input_bytes output_bytes : Metric
  upload_bytes download_bytes egress_bytes frames output_frames duration_ms denoise_steps : Metric
  -- the field of old workers, and any other name
  native unsupported : Metric

unfoldable pub maximum : Metric → ℕ
maximum Metric.gpu_active_ms = 30 * 24 * 60 * 60 * 1000
maximum Metric.executor_wall_ms = 30 * 24 * 60 * 60 * 1000
maximum Metric.gateway_wall_ms = usage_max_wall_ms
maximum Metric.gpu_count = 64
maximum Metric.input_bytes = 1024 ^ 5
maximum Metric.output_bytes = 1024 ^ 5
maximum Metric.upload_bytes = 1024 ^ 5
maximum Metric.download_bytes = 1024 ^ 5
maximum Metric.egress_bytes = 1024 ^ 5
maximum Metric.frames = 100_000_000
maximum Metric.output_frames = 100_000_000
maximum Metric.duration_ms = 30 * 24 * 60 * 60 * 1000
maximum Metric.denoise_steps = 10_000_000
maximum Metric.native = 0
maximum Metric.unsupported = 0

abbrev pub metric_index : Metric → ℕ
metric_index Metric.gpu_active_ms = 0
metric_index Metric.executor_wall_ms = 1
metric_index Metric.gateway_wall_ms = 2
metric_index Metric.gpu_count = 3
metric_index Metric.input_bytes = 4
metric_index Metric.output_bytes = 5
metric_index Metric.upload_bytes = 6
metric_index Metric.download_bytes = 7
metric_index Metric.egress_bytes = 8
metric_index Metric.frames = 9
metric_index Metric.output_frames = 10
metric_index Metric.duration_ms = 11
metric_index Metric.denoise_steps = 12
metric_index Metric.native = 13
metric_index Metric.unsupported = 14

-- A reported value: an int, or a value that the range test refuses by its type (a bool, a float,
-- a negative int, a text).
pub data Value : Type 0 where
  int : ℕ → Value
  other : Value

abbrev pub Metrics : Type 0
Metrics = List (Metric × ℕ)

unfoldable pub drop_native : List (Metric × Value) → List (Metric × Value)
drop_native [] = []
drop_native ((Metric.native, v) ∷ rest) = drop_native rest
drop_native ((m, v) ∷ rest) = (m, v) ∷ drop_native rest

unfoldable pub all_allowed : List (Metric × Value) → Bool
all_allowed [] = true
all_allowed ((Metric.unsupported, v) ∷ rest) = false
all_allowed ((m, v) ∷ rest) = all_allowed rest

unfoldable pub normalize : List (Metric × Value) → Result Metrics
unfolding maximum
normalize [] = ok []
normalize ((m, other) ∷ rest) = raise usage_report_invalid
normalize ((m, int n) ∷ rest) = do
  require (leb n (maximum m)) usage_report_invalid
  tail ← normalize rest
  ok ((m, n) ∷ tail)

-- `metrics.get(name)`
unfoldable pub get : Metric → Metrics → Option ℕ
get m [] = none
get m ((j, n) ∷ rest) = if metric_index j == metric_index m then some n else get m rest

abbrev pub get_or : Metric → ℕ → Metrics → ℕ
get_or m d ms = elim (get m ms) [ none ↦ d | some n ↦ n ]

abbrev pub positive_count : Option ℕ → Bool
positive_count none = true
positive_count (some n) = leb 1 n

unfoldable pub validate_usage_metrics : List (Metric × Value) → Result Metrics
unfolding drop_native all_allowed normalize get
validate_usage_metrics metrics = do
  let kept = drop_native metrics
  require (all_allowed kept) usage_report_invalid
  normalized ← normalize kept
  require (positive_count (get Metric.gpu_count normalized)) usage_report_invalid
  ok normalized
