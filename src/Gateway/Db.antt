-- ===== src/Gateway/Db.antt =====
-- The rows of the gateway's database that scheduling reads and writes (the schema in
-- src/vgen/gateway/database.py).
-- Identifiers are texts that are compared for equality only (`tasks.id` also breaks ties of an
-- ORDER BY): they are numbers here. A time is a number of microseconds. `priority` is the
-- column's value plus 1000, since a request's priority is -1000 at least.
use vgen.Base.{ℕ, ◌*◌, String, Bool, Option, List}
pub use vgen.Gateway.Db.States.{
  WorkerStatus, Responsibility, Role, PrincipalType, Direction, ArtifactState, CommandState,
  JobState, JobKind,
}
pub use vgen.Gateway.Db.Maintenance.{
  Job, MaintenanceArtifact, WorkflowAuthorization, ModelAuthorization,
}
pub mod States
pub mod Maintenance
use vgen.Table.{Table}
use vgen.Protocol.{TaskState, AttemptState}

pub record Worker : Type 0 where
  pub owner_user_id : ℕ
  pub manager_broker_id : Option ℕ
  pub executor_type : String
  pub executor_version : String
  pub capabilities : String
  pub capacity : ℕ
  pub status : WorkerStatus
  pub fencing_counter : ℕ
  pub last_seen_at : Option ℕ
  pub capability_auth_enforced_at : Option ℕ
  pub created_at : ℕ
  pub updated_at : ℕ
  pub revoked_at : Option ℕ

pub record Task : Type 0 where
  pub workspace_id : ℕ
  pub pool_id : ℕ
  pub consumer_user_id : Option ℕ
  pub consumer_principal_type : PrincipalType
  pub consumer_principal_id : ℕ
  pub workflow_ref : String
  pub workflow_digest : String
  pub executor_type : String
  pub public_requirements : String
  pub content_key_version : ℕ
  pub encrypted_payload : Option String
  pub reader_envelope : Option String
  pub assigned_worker_id : Option ℕ
  pub reservation_expires_at : Option ℕ
  pub state : TaskState
  pub priority : ℕ
  pub created_at : ℕ
  pub committed_at : Option ℕ
  pub finished_at : Option ℕ
  pub updated_at : ℕ

-- The receipt that a finished attempt stores, as `json.loads` gives it: `unreadable` is a text
-- that is no JSON, or JSON that is no object of these three fields.
pub data Receipt : Type 0 where
  unreadable : Receipt
  receipt : (attempt_id task_id : ℕ) → AttemptState → Receipt

pub record Attempt : Type 0 where
  pub task_id : ℕ
  pub attempt_number : ℕ
  pub worker_id : ℕ
  pub state : AttemptState
  pub responsibility : Option Responsibility
  pub failure_code : Option ℕ
  pub progress : String
  pub fencing_token : ℕ
  pub reserved_at : ℕ
  pub leased_at : Option ℕ
  pub started_at : Option ℕ
  pub finished_at : Option ℕ
  pub finish_semantic_hash : Option String
  pub finish_receipt : Option Receipt

-- `leases.attempt_id` is UNIQUE: the table is kept under it, and the lease's own id is a field.
pub record Lease : Type 0 where
  pub id : ℕ
  pub worker_id : ℕ
  pub fencing_token : ℕ
  pub encrypted_tdk_envelope : String
  pub issued_at : ℕ
  pub expires_at : ℕ
  pub heartbeat_at : Option ℕ
  pub released_at : Option ℕ

-- The envelopes whose `recipient_type` is 'worker'.
pub record KeyEnvelope : Type 0 where
  pub task_id : ℕ
  pub recipient_id : ℕ
  pub key_version : ℕ
  pub algorithm : String
  pub envelope : String
  pub created_at : ℕ
  pub revoked_at : Option ℕ

pub record Artifact : Type 0 where
  pub task_id : ℕ
  pub attempt_id : Option ℕ
  pub kind : String
  pub direction : Direction
  pub store_type : String
  pub object_ref : String
  pub content_digest : Option String
  pub encrypted_size : Option ℕ
  pub media_metadata : List (String × String)
  pub state : ArtifactState
  pub created_at : ℕ
  pub updated_at : ℕ

-- A 'task_rekey' command; `command_key` is made of its task and of the source attempt, if any.
pub record Command : Type 0 where
  pub task_id : ℕ
  pub source_attempt_id : Option ℕ
  pub broker_device_id : ℕ
  pub key_version : ℕ
  pub reason : String
  pub state : CommandState
  pub created_at : ℕ
  pub expires_at : Option ℕ

-- A row of `broker_devices` joined with its broker and its device: `linked` says that the row is
-- active, and `active` that the row, the broker and the device are.
pub record BrokerDevice : Type 0 where
  pub broker_id : ℕ
  pub device_id : ℕ
  pub owner_user_id : ℕ
  pub linked : Bool
  pub active : Bool
  pub last_seen_at : Option ℕ
  pub created_at : ℕ

-- An active membership, and an active service.
pub record Membership : Type 0 where
  pub workspace_id : ℕ
  pub user_id : ℕ
  pub role : Role

pub record UsageEvent : Type 0 where
  pub attempt_id : ℕ
  pub worker_id : ℕ
  pub observed_at : ℕ

pub record LedgerEntry : Type 0 where
  pub attempt_id : ℕ
  pub responsibility : Responsibility
  pub output_video_duration_ms : ℕ
  pub generation_elapsed_ms : ℕ
  pub created_at : ℕ

pub record WorkerSession : Type 0 where
  pub worker_id : ℕ
  pub revoked_at : Option ℕ

-- A worker that its owner offers to a pool; `is_proven` stands for a stored allocation proof.
pub record Allocation : Type 0 where
  pub worker_id : ℕ
  pub pool_id : ℕ
  pub active : Bool
  pub is_proven : Bool

pub record RateCard : Type 0 where
  pub worker_id : ℕ
  pub workspace_id : ℕ
  pub approved : Bool
  pub rate_microtokens_per_second : ℕ
  pub decided_at : Option ℕ

pub record Workspace : Type 0 where
  pub key_version : ℕ
  pub active : Bool

pub record Pool : Type 0 where
  pub workspace_id : ℕ
  pub active : Bool

-- `fresh` is the supply of `new_id`, whose random identifiers are taken to be distinct.
pub record Db : Type 0 where
  pub workspaces : Table Workspace
  pub pools : Table Pool
  pub workers : Table Worker
  pub tasks : Table Task
  pub attempts : Table Attempt
  pub leases : Table Lease
  pub envelopes : Table KeyEnvelope
  pub artifacts : Table Artifact
  pub jobs : Table Job
  pub maintenance_artifacts : Table MaintenanceArtifact
  pub workflow_authorizations : List WorkflowAuthorization
  pub model_authorizations : List ModelAuthorization
  pub sessions : Table WorkerSession
  pub commands : List Command
  pub broker_devices : Table BrokerDevice
  pub allocations : Table Allocation
  pub rate_cards : Table RateCard
  pub memberships : List Membership
  pub services : List (ℕ × ℕ)
  pub usage_events : List UsageEvent
  pub ledger : List LedgerEntry
  pub fresh : ℕ

abbrev pub seconds : ℕ → ℕ
seconds n = n * 1000000
