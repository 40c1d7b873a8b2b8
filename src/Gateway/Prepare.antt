-- ===== src/Gateway/Prepare.antt =====
-- A task is prepared: a worker is chosen for it and reserved (`prepare_task` of
-- src/vgen/gateway/repository.py).
pub mod Sound
use text.Mathlib.Text.{◌==◌ as str_eq}
use vgen.Base.{
  ℕ, suc, ◌+◌, String, Bool, true, false, ◌&&◌, ◌||◌, not, Option, none, some, ltb, ◌==◌, is_none,
  if◌then◌else◌,
}
use vgen.Table.{insert, update_row, count_where, count_keys, exists_key, select_sorted}
use vgen.Protocol.{TaskState, AttemptState}
use vgen.Gateway.Db.{Db, Task, Attempt, Worker, WorkerStatus, PrincipalType, Workspace}
use vgen.Gateway.Tx.{
  Result, Body, ok, raise, ◌>>=◌, ◌>>◌, require, found, service_principal_invalid,
  workspace_not_found, pool_not_found, no_eligible_worker, worker_queue_full, rate_not_approved,
  integrity_error,
}
use vgen.Gateway.Access.{Principal, require_service, require_member}
use vgen.Gateway.Sweep.{expire_reservations, expire_leases, holds_slot, is_status}
use vgen.Gateway.Leasing.{has_maintenance, token_is_taken}
use vgen.Gateway.Rekey.{
  is_allocated, is_online, used_slots, worker_before, take, first_match, approved_rate,
}

pub record PrepareRequest : Type 0 where
  pub principal : Principal
  pub workspace_id : ℕ
  pub pool_id : ℕ
  pub workflow_ref : String
  pub workflow_digest : String
  pub executor_type : String
  pub public_requirements : String
  pub priority : ℕ
  pub reservation_ttl_seconds : ℕ

-- Workers that may be given a task of the pool, whether or not they have room.
unfoldable pub is_queue_candidate : ℕ → String → ℕ → Db → ℕ → Worker → Bool
unfolding exists_key has_maintenance
is_queue_candidate pool_id executor_type stamp db worker_id w =
    is_allocated worker_id pool_id db
    && is_status w.status WorkerStatus.active
    && not (has_maintenance worker_id db)
    && str_eq w.executor_type executor_type
    && is_online stamp w.last_seen_at

unfoldable pub is_candidate : ℕ → String → ℕ → Db → ℕ → Worker → Bool
unfolding is_queue_candidate used_slots
is_candidate pool_id executor_type stamp db worker_id w =
    is_queue_candidate pool_id executor_type stamp db worker_id w
    && ltb (used_slots worker_id stamp db) w.capacity

-- The attempts of a worker that are not over, lapsed reservations included.
unfoldable pub queued_load : ℕ → Db → ℕ
unfolding count_keys
queued_load worker_id db =
    count_where (λ _ a. a.worker_id == worker_id && holds_slot a.state) db.attempts

-- ORDER BY queued_load ASC, last_seen_at DESC, created_at
unfoldable pub queue_before : Db → ℕ × Worker → ℕ × Worker → Bool
unfolding queued_load
queue_before db (j, v) (k, w) =
    ltb (queued_load j db) (queued_load k db)
    || (queued_load j db == queued_load k db && worker_before (j, v) (k, w))

-- The first of the candidates (50 at most) that satisfies the requirements.
unfoldable pub task_candidate : (ℕ → Worker → Bool) → ℕ → String → ℕ → Db → Option (ℕ × Worker)
unfolding is_candidate select_sorted take first_match
task_candidate matches pool_id executor_type stamp db =
    first_match matches (
      take 50
        (select_sorted worker_before (is_candidate pool_id executor_type stamp db) db.workers))

unfoldable pub task_queue_candidate :
    (ℕ → Worker → Bool) → ℕ → String → ℕ → Db → Option (ℕ × Worker)
unfolding is_queue_candidate queue_before select_sorted take first_match
task_queue_candidate matches pool_id executor_type stamp db = first_match matches (
    take 50 (
      select_sorted (queue_before db) (is_queue_candidate pool_id executor_type stamp db)
        db.workers))

-- A worker that has room, one whose queue the task joins, or none.
pub data Choice : Type 0 where
  free : ℕ × Worker → Choice
  queueing : ℕ × Worker → Choice
  nobody : Choice

abbrev pub or_queue : Option (ℕ × Worker) → Option (ℕ × Worker) → Choice
or_queue (some x) queue = free x
or_queue none (some x) = queueing x
or_queue none none = nobody

unfoldable pub choose : (ℕ → Worker → Bool) → PrepareRequest → ℕ → Db → Choice
unfolding task_candidate task_queue_candidate
choose matches q stamp db =
    or_queue (task_candidate matches q.pool_id q.executor_type stamp db)
      (task_queue_candidate matches q.pool_id q.executor_type stamp db)

abbrev pub max_queued_tasks_per_worker : ℕ
max_queued_tasks_per_worker = 100

unfoldable pub check_principal : PrepareRequest → Db → PrincipalType → Result (Unit {0})
unfolding require_service require_member
check_principal q db PrincipalType.service = do
  require_service db q.workspace_id q.principal.principal_id
  require (is_none q.principal.user_id) service_principal_invalid
check_principal q db PrincipalType.device =
    require_member db q.workspace_id q.principal.user_id >>= λ _. ok tt

-- The checks that `prepare_task` begins with, and the workspace that it reads.
unfoldable pub check_consumer : PrepareRequest → Db → Result Workspace
unfolding check_principal
check_consumer q db = do
  check_principal q db q.principal.principal_type
  workspace ← found (db.workspaces.row q.workspace_id) workspace_not_found
  require workspace.active workspace_not_found
  pool ← found (db.pools.row q.pool_id) pool_not_found
  require (pool.workspace_id == q.workspace_id && pool.active) pool_not_found
  ok workspace

abbrev new_task : PrepareRequest → ℕ → ℕ → ℕ → Task
new_task q key_version worker_id stamp = record {
  workspace_id = q.workspace_id;
  pool_id = q.pool_id;
  consumer_user_id = q.principal.user_id;
  consumer_principal_type = q.principal.principal_type;
  consumer_principal_id = q.principal.principal_id;
  workflow_ref = q.workflow_ref;
  workflow_digest = q.workflow_digest;
  executor_type = q.executor_type;
  public_requirements = q.public_requirements;
  content_key_version = key_version;
  encrypted_payload = none;
  reader_envelope = none;
  assigned_worker_id = some worker_id;
  reservation_expires_at = some (stamp + q.reservation_ttl_seconds);
  state = TaskState.prepared;
  priority = q.priority;
  created_at = stamp;
  committed_at = none;
  finished_at = none;
  updated_at = stamp;
}

abbrev new_attempt : ℕ → ℕ → ℕ → ℕ → Attempt
new_attempt task_id worker_id fencing stamp = record {
  task_id = task_id;
  attempt_number = 1;
  worker_id = worker_id;
  state = AttemptState.reserved;
  responsibility = none;
  failure_code = none;
  progress = "{}";
  fencing_token = fencing;
  reserved_at = stamp;
  leased_at = none;
  started_at = none;
  finished_at = none;
  finish_semantic_hash = none;
  finish_receipt = none;
}

-- The task's id is drawn first, then the attempt's.
unfoldable pub store_prepared : PrepareRequest → ℕ → ℕ → ℕ → ℕ → Db → Db
store_prepared q key_version worker_id fencing stamp db = record db {
  tasks = insert db.fresh (new_task q key_version worker_id stamp) db.tasks;
  workers =
      update_row worker_id (λ w. record w { fencing_counter = fencing; updated_at = stamp })
        db.workers;
  attempts = insert (suc db.fresh) (new_attempt db.fresh worker_id fencing stamp) db.attempts;
  fresh = suc (suc db.fresh);
}

-- What the answer says of the reservation.
pub record Prepared : Type 0 where
  pub task_id : ℕ
  pub attempt_id : ℕ
  pub worker_id : ℕ
  pub key_version : ℕ
  pub fencing_token : ℕ
  pub queue_expected : Bool

unfoldable pub reserve_task : PrepareRequest → ℕ → Bool → ℕ × Worker → ℕ → Body Prepared
unfolding approved_rate token_is_taken store_prepared
reserve_task q key_version queued (worker_id, w) stamp db = do
  (rate_id, rate) ← found (approved_rate worker_id q.workspace_id db) rate_not_approved
  let fencing = w.fencing_counter + 1
  require (not (token_is_taken worker_id fencing (suc db.fresh) db)) integrity_error
  ok (
    record {
      task_id = db.fresh;
      attempt_id = suc db.fresh;
      worker_id = worker_id;
      key_version = key_version;
      fencing_token = fencing;
      queue_expected = queued;
    },
    store_prepared q key_version worker_id fencing stamp db,
  )

unfoldable pub reserve_choice : PrepareRequest → ℕ → ℕ → Choice → Body Prepared
unfolding reserve_task queued_load
reserve_choice q key_version stamp (free x) db = reserve_task q key_version false x stamp db
reserve_choice q key_version stamp (queueing x) db =
    require (ltb (queued_load x.0 db) max_queued_tasks_per_worker) worker_queue_full
    >> reserve_task q key_version true x stamp db
reserve_choice q key_version stamp nobody db = raise no_eligible_worker

-- The database that the transaction of `prepare_task` schedules on.
abbrev pub prepare_swept : ℕ → Db → Db
prepare_swept stamp db = (expire_leases stamp (expire_reservations stamp db)).0

-- `prepare_task`; `matches` is `_matches_requirements` of the database and a worker's row against
-- the requirements and the workflow of the request.
unfoldable pub prepare_task :
    (Db → ℕ → Worker → PrepareRequest → Bool) → PrepareRequest → ℕ → Body Prepared
unfolding check_consumer expire_reservations expire_leases choose reserve_choice
prepare_task matches q stamp before = do
  workspace ← check_consumer q before
  let db = prepare_swept stamp before
  reserve_choice q workspace.key_version stamp (choose (λ k w. matches db k w q) q stamp db) db
