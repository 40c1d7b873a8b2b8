-- ===== src/Gateway/Usage/Bounds.antt =====
-- The wall time that the gateway records of an attempt (`_canonical_usage_metrics` of
-- src/vgen/gateway/repository.py).
use vgen.Base.{◌*◌, ◌≤◌, ◌<◌, ◌+◌, ℕ}

-- `n` milliseconds are the time between the stamps, rounded up, and 30 days at most.
pub record RoundedUp (started finished n : ℕ) : Type 0 where
  pub bounded : n ≤ 2592000000
  pub covers : n < 2592000000 → finished ≤ started + n * 1000
  pub tight : 0 < n → started + n * 1000 < finished + 1000
