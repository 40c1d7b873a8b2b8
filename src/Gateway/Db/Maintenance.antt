-- ===== src/Gateway/Db/Maintenance.antt =====
-- The rows of maintenance jobs and of what they authorize (the schema in
-- src/vgen/gateway/database.py).
use vgen.Base.{ℕ, String, Option, List}
use vgen.Gateway.Installs.{JobSpec, JobResult}
use vgen.Gateway.Db.States.{JobKind, JobState, ArtifactState}

pub record Job : Type 0 where
  pub worker_id : ℕ
  pub broker_id : ℕ
  pub kind : JobKind
  pub spec : JobSpec
  pub spec_digest : String
  pub state : JobState
  pub progress : String
  pub result : Option JobResult
  pub fencing_token : ℕ
  pub lease_session_id : Option ℕ
  pub lease_expires_at : Option ℕ
  pub heartbeat_at : Option ℕ
  pub expires_at : ℕ
  pub created_at : ℕ
  pub updated_at : ℕ
  pub completed_at : Option ℕ

-- `maintenance_artifacts.job_id` is UNIQUE: the table is kept under it.
pub record MaintenanceArtifact : Type 0 where
  pub id : ℕ
  pub store_type : String
  pub object_ref : String
  pub expected_size : ℕ
  pub expected_sha256 : String
  pub observed_size : Option ℕ
  pub observed_sha256 : Option String
  pub state : ArtifactState
  pub updated_at : ℕ

-- The workflows and the models that a worker's owner authorized, with the job that did it.
pub record WorkflowAuthorization : Type 0 where
  pub worker_id : ℕ
  pub authorization_source_id : ℕ
  pub workflow_ref : String
  pub workflow_digest : String
  pub spec_digest : String
  pub node_classes : List String
  pub authorized_at : ℕ

pub record ModelAuthorization : Type 0 where
  pub worker_id : ℕ
  pub authorization_source_id : ℕ
  pub workflow_ref : String
  pub workflow_digest : String
  pub model_digest : String
  pub spec_digest : String
  pub authorized_at : ℕ
