-- ===== src/Gateway/Jobs/Drivers.antt =====
-- The requests that drive maintenance jobs (src/vgen/gateway/repository.py): `record_upload` is
-- mark_artifact_uploaded, and `sweep_maintenance` is sweep_expired.
use vgen.Base.{ℕ, List, Option, String}
use vgen.Gateway.Db.{JobKind}
use vgen.Gateway.Jobs.Reports.{JobHeartbeat}
use vgen.Gateway.Jobs.Authorizations.{Authority}
use vgen.Gateway.Jobs.Completion.{JobReport}

pub data JobRequest : Type 0 where
  commit_maintenance : (job_id user_id device_id : ℕ) → JobRequest
  cancel_maintenance : (job_id owner_user_id : ℕ) → JobRequest
  claim_maintenance : (worker_id session_id ttl : ℕ) → List (Option JobKind) → JobRequest
  heartbeat_maintenance : JobHeartbeat → JobRequest
  complete_maintenance : Authority → JobReport → JobRequest
  record_upload : (String → String) → (artifact_id size : ℕ) → Option String → JobRequest
  sweep_maintenance : JobRequest
