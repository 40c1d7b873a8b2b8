-- ===== src/Tests/World.antt =====
-- A database with one worker, which runs attempt 21 of task 11 and has attempt 20 of task 10
-- reserved. Task 10 is queued first, task 12 waits for its commit.
use vgen.Gateway.Safety.{IsConsistent}
use vgen.Table.Laws.{IsTable, IsTable-insert}
use vgen.Base.{true, [], ◌∷◌, none, some, refl, arith, ℕ, Option}
use vgen.Table.{Table, insert}
use vgen.Gateway.Installs.{JobSpec}
use vgen.Gateway.Db.{
  Worker, Task, Attempt, Lease, KeyEnvelope, Db, WorkerStatus, PrincipalType, Role, Job, JobKind,
  JobState,
}
use vgen.Protocol.{TaskState, AttemptState}

abbrev pub no_rows : {A : Type 0} → Table A
no_rows = record { keys = []; row = λ k. none }

abbrev pub worker_1 : Worker
worker_1 = record {
  owner_user_id = 7;
  manager_broker_id = some 4;
  executor_type = "comfyui";
  executor_version = "1.0";
  capabilities = "{}";
  capacity = 2;
  status = WorkerStatus.active;
  fencing_counter = 3;
  last_seen_at = some 90;
  capability_auth_enforced_at = none;
  created_at = 1;
  updated_at = 90;
  revoked_at = none;
}

abbrev pub task_in_state : TaskState → ℕ → Option ℕ → Task
task_in_state state priority until = record {
  workspace_id = 5;
  pool_id = 6;
  consumer_user_id = some 8;
  consumer_principal_type = PrincipalType.device;
  consumer_principal_id = 9;
  workflow_ref = "workflow";
  workflow_digest = "digest";
  executor_type = "comfyui";
  public_requirements = "{}";
  content_key_version = 1;
  encrypted_payload = some "payload";
  reader_envelope = some "reader";
  assigned_worker_id = some 1;
  reservation_expires_at = until;
  state = state;
  priority = priority;
  created_at = 10;
  committed_at = none;
  finished_at = none;
  updated_at = 10;
}

abbrev pub attempt_of : ℕ → AttemptState → ℕ → Option ℕ → Attempt
attempt_of task_id state token started = record {
  task_id = task_id;
  attempt_number = 1;
  worker_id = 1;
  state = state;
  responsibility = none;
  failure_code = none;
  progress = "{}";
  fencing_token = token;
  reserved_at = 10;
  leased_at = started;
  started_at = started;
  finished_at = none;
  finish_semantic_hash = none;
  finish_receipt = none;
}

abbrev pub task_10 : Task
task_10 = task_in_state TaskState.queued 1000 none

abbrev pub task_11 : Task
task_11 = task_in_state TaskState.running 1000 none

abbrev pub task_12 : Task
task_12 = task_in_state TaskState.prepared 1000 (some 50)

abbrev pub attempt_20 : Attempt
attempt_20 = attempt_of 10 AttemptState.reserved 2 none

abbrev pub attempt_21 : Attempt
attempt_21 = attempt_of 11 AttemptState.running 3 (some 20)

abbrev pub lease_21 : Lease
lease_21 = record {
  id = 30;
  worker_id = 1;
  fencing_token = 3;
  encrypted_tdk_envelope = "wrapped";
  issued_at = 20;
  expires_at = 500;
  heartbeat_at = some 90;
  released_at = none;
}

abbrev pub envelope_10 : KeyEnvelope
envelope_10 = record {
  task_id = 10;
  recipient_id = 1;
  key_version = 1;
  algorithm = "x25519";
  envelope = "wrapped";
  created_at = 10;
  revoked_at = none;
}

abbrev pub world : Db
world = record {
  workspaces = insert 5 (record { key_version = 1; active = true }) no_rows;
  pools = insert 6 (record { workspace_id = 5; active = true }) no_rows;
  workers = insert 1 worker_1 no_rows;
  tasks = insert 12 task_12 (insert 11 task_11 (insert 10 task_10 no_rows));
  attempts = insert 21 attempt_21 (insert 20 attempt_20 no_rows);
  leases = insert 21 lease_21 no_rows;
  envelopes = insert 40 envelope_10 no_rows;
  artifacts = no_rows;
  jobs = no_rows;
  maintenance_artifacts = no_rows;
  workflow_authorizations = [];
  model_authorizations = [];
  sessions = no_rows;
  commands = [];
  broker_devices = no_rows;
  allocations = no_rows;
  rate_cards = no_rows;
  memberships = record { workspace_id = 5; user_id = 8; role = Role.member } ∷ [];
  services = [];
  usage_events = [];
  ledger = [];
  fresh = 100;
}

pub no_rows-IsTable : {A : Type 0} → IsTable (no_rows {A = A})
no_rows-IsTable = record { listed = λ k. refl; distinct_keys = refl }

pub world-IsConsistent : IsConsistent world
world-IsConsistent = record {
  leases_table = IsTable-insert 21 lease_21 no_rows refl no_rows-IsTable;
  attempts_table =
      IsTable-insert 21 attempt_21 (insert 20 attempt_20 no_rows) refl
        (IsTable-insert 20 attempt_20 no_rows refl no_rows-IsTable);
  tasks_table = IsTable-insert 12 task_12 (insert 11 task_11 (insert 10 task_10 no_rows)) refl (
      IsTable-insert 11 task_11 (insert 10 task_10 no_rows) refl
        (IsTable-insert 10 task_10 no_rows refl no_rows-IsTable));
  tasks_agree = λ k. ground arith;
  leases_agree = λ k. ground arith;
  tokens_drawn = λ k. ground arith;
  leases_fenced = λ k. ground arith;
  live_unique = λ j k. ground arith;
  not_started = λ k. ground arith;
  workers_agree = λ k. ground arith;
  attempts_drawn = λ k. ground arith;
  tasks_drawn = λ k. ground arith;
  leases_drawn = λ k. ground arith;
  tokens_unique = λ j k. ground arith;
}

-- A draining worker whose only attempt is over.
abbrev pub draining_1 : Worker
draining_1 = record worker_1 { status = WorkerStatus.draining }

abbrev pub ended_21 : Attempt
ended_21 = attempt_of 11 AttemptState.succeeded 3 (some 20)

abbrev pub quiet_world : Db
quiet_world = record world {
  workers = insert 1 draining_1 no_rows;
  tasks = insert 11 (task_in_state TaskState.succeeded 1000 none) no_rows;
  attempts = insert 21 ended_21 no_rows;
  leases = no_rows;
}

pub quiet_world-IsConsistent : IsConsistent quiet_world
quiet_world-IsConsistent = record {
  leases_table = no_rows-IsTable;
  attempts_table = IsTable-insert 21 ended_21 no_rows refl no_rows-IsTable;
  tasks_table =
      IsTable-insert 11 (task_in_state TaskState.succeeded 1000 none) no_rows refl no_rows-IsTable;
  tasks_agree = λ k. ground arith;
  leases_agree = λ k. ground arith;
  tokens_drawn = λ k. ground arith;
  leases_fenced = λ k. refl;
  live_unique = λ j k. ground arith;
  not_started = λ k. ground arith;
  workers_agree = λ k. ground arith;
  attempts_drawn = λ k. ground arith;
  tasks_drawn = λ k. ground arith;
  leases_drawn = λ k. refl;
  tokens_unique = λ j k. ground arith;
}

-- A maintenance job that a worker has held for too long.
abbrev pub stale_job : Job
stale_job = record {
  worker_id = 1;
  broker_id = 4;
  kind = JobKind.model_install;
  spec = JobSpec.model_spec [];
  spec_digest = "spec";
  state = JobState.running;
  progress = "{}";
  result = none;
  fencing_token = 2;
  lease_session_id = some 70;
  lease_expires_at = some 50;
  heartbeat_at = some 40;
  expires_at = 900;
  created_at = 10;
  updated_at = 40;
  completed_at = none;
}

abbrev pub job_world : Db
job_world = record world { jobs = insert 60 stale_job no_rows }
