-- ===== src/Gateway/Workers.antt =====
-- A worker reports itself and leaves (`worker_heartbeat` and `leave_worker` of
-- src/vgen/gateway/repository.py).

pub mod Departure
use vgen.Base.{
  ℕ, ◌+◌, String, Bool, true, false, ◌&&◌, ◌||◌, not, Option, none, some, List, [], ◌∷◌, ◌==◌,
  if◌then◌else◌, eq_null, test, is_none,
}
use vgen.Table.{update_where, update_row, select_where, select_keys, exists_where, exists_key}
use vgen.Protocol.{TaskState, AttemptState, task_in, attempt_in}
use vgen.Gateway.Db.{Db, Task, Attempt, Worker, WorkerStatus, Responsibility, JobState, Allocation}
use vgen.Gateway.Tx.{
  Body, ok, ◌>>=◌, ◌>>◌, require, found, worker_not_found, worker_revoked, worker_access_denied,
  worker_capabilities_required,
}
use vgen.Gateway.Commands.{enqueue_task_rekey_command, last_attempt, key_of}
use vgen.Gateway.Sweep.{is_status, is_live, holds_slot}
use vgen.Gateway.Expiry.{is_open_job}
use vgen.Gateway.Jobs.{has_live_attempt}

-- What is stored of a capability report: `_worker_capabilities` (with its fallback for a malformed
-- report) and `_authorized_worker_capabilities`, and `_heartbeat_executor_version` of the result.
pub record Projection : Type 0 where
  pub capabilities : Db → ℕ → Worker → String → String
  pub executor_version : Worker → String → Option String

abbrev pub or_version : Option String → String → String
or_version none version = version
or_version (some reported) version = reported

-- A draining worker is only seen.
unfoldable pub touch_worker : ℕ → ℕ → Db → Db
touch_worker worker_id stamp db = record db {
  workers =
      update_row worker_id (λ w. record w { last_seen_at = some stamp; updated_at = stamp })
        db.workers;
}

unfoldable pub store_capabilities : ℕ → String → Option String → ℕ → Db → Db
store_capabilities worker_id capabilities version stamp db = record db {
  workers =
      update_row worker_id
        (λ w. record w {
          status = WorkerStatus.active;
          last_seen_at = some stamp;
          capabilities = capabilities;
          executor_version = or_version version w.executor_version;
          updated_at = stamp;
        })
        db.workers;
}

-- The answer is the status; its copy of the authorizations is left out. A report that is no JSON
-- object or an empty one is `none`.
unfoldable pub worker_heartbeat : Projection → ℕ → Option String → ℕ → Body WorkerStatus
unfolding touch_worker store_capabilities
worker_heartbeat projection worker_id report stamp db = do
  w ← found (db.workers.row worker_id) worker_not_found
  require (not (is_status w.status WorkerStatus.revoked)) worker_revoked
  if is_status w.status WorkerStatus.draining
      then ok (WorkerStatus.draining, touch_worker worker_id stamp db)
      else (do
        reported ← found report worker_capabilities_required
        let capabilities = projection.capabilities db worker_id w reported
        ok (
          WorkerStatus.active,
          store_capabilities worker_id capabilities (projection.executor_version w capabilities)
              stamp db,
        ))

-- ErrorCode.WORKER_DRAINING and ErrorCode.WORKER_OFFLINE
abbrev pub worker_draining_code : ℕ
worker_draining_code = 220003

abbrev pub worker_offline_code : ℕ
worker_offline_code = 220002

abbrev pub is_prepared_for : ℕ → Task → Bool
is_prepared_for worker_id t =
    eq_null t.assigned_worker_id worker_id && task_in t.state (TaskState.prepared ∷ [])

-- Tasks that were prepared for the worker expire, with their reserved attempts.
unfoldable pub expire_prepared : ℕ → ℕ → Db → Db
expire_prepared worker_id stamp db = record db {
  attempts =
      update_where
        (λ _ a.
          test (is_prepared_for worker_id) (db.tasks.row a.task_id)
          && attempt_in a.state (AttemptState.reserved ∷ []))
        (λ a. record a { state = AttemptState.expired; finished_at = some stamp }) db.attempts;
  tasks =
      update_where (λ _ t. is_prepared_for worker_id t)
        (λ t. record t { state = TaskState.expired; finished_at = some stamp; updated_at = stamp })
        db.tasks;
}

-- The tasks of the worker's queue: those that wait for it, and those under a rekey to it.
unfoldable pub waits_for : ℕ → Db → ℕ → Task → Bool
unfolding exists_key
waits_for worker_id db task_id t =
    eq_null t.assigned_worker_id worker_id
    && (task_in t.state (TaskState.committed ∷ TaskState.queued ∷ [])
        || (task_in t.state (TaskState.rekey_required ∷ [])
            && exists_where
                (λ _ a.
                  a.task_id == task_id
                  && a.worker_id == worker_id
                  && attempt_in a.state (AttemptState.reserved ∷ []))
                db.attempts))

-- Both updates of a graceful departure, over the tasks that were selected before.
unfoldable pub release_queue : ℕ → ℕ → Db → Db
unfolding waits_for
release_queue worker_id stamp db = record db {
  attempts =
      update_where
        (λ _ a.
          test (waits_for worker_id db a.task_id) (db.tasks.row a.task_id)
          && attempt_in a.state (AttemptState.reserved ∷ []))
        (λ a. record a {
          state = AttemptState.cancelled;
          responsibility = some Responsibility.provider;
          failure_code = some worker_draining_code;
          finished_at = some stamp;
        })
        db.attempts;
  tasks =
      update_where (waits_for worker_id db)
        (λ t. record t {
          state = TaskState.rekey_required;
          reservation_expires_at = none;
          updated_at = stamp;
        })
        db.tasks;
}

-- A rekey command for each of the tasks, which names its latest attempt.
unfoldable pub request_rekeys : String → ℕ → List ℕ → Db → Db
unfolding enqueue_task_rekey_command last_attempt
request_rekeys reason stamp [] db = db
request_rekeys reason stamp (task_id ∷ rest) db =
    request_rekeys reason stamp rest
      (enqueue_task_rekey_command task_id (key_of (last_attempt task_id db)) reason stamp db).0

unfoldable pub drain_queue : ℕ → ℕ → Db → Db
unfolding release_queue request_rekeys select_keys
drain_queue worker_id stamp db =
    request_rekeys "worker_draining" stamp (select_where (waits_for worker_id db) db.tasks)
      (release_queue worker_id stamp db)

abbrev pub or_stamp : Bool → Option ℕ → ℕ → Option ℕ
or_stamp true t stamp = some stamp
or_stamp false t stamp = t

abbrev pub departed : Bool → WorkerStatus
departed true = WorkerStatus.revoked
departed false = WorkerStatus.draining

-- The worker's status, and what ends with it: its allocations, its maintenance jobs, which are
-- fenced, and the sessions of a revoked worker.
unfoldable pub retire : ℕ → Bool → ℕ → Db → Db
retire worker_id revoked stamp db = record db {
  workers =
      update_row worker_id
        (λ w. record w {
          status = departed revoked;
          updated_at = stamp;
          revoked_at = or_stamp revoked w.revoked_at stamp;
        })
        db.workers;
  allocations =
      update_where (λ _ a. a.worker_id == worker_id) (λ a. record a { active = false })
        db.allocations;
  jobs =
      update_where (λ _ j. j.worker_id == worker_id && is_open_job j.state)
        (λ j. record j {
          state = JobState.cancelled;
          completed_at = some stamp;
          updated_at = stamp;
          lease_session_id = none;
          lease_expires_at = none;
          fencing_token = j.fencing_token + 1;
        })
        db.jobs;
  sessions =
      update_where (λ _ s. revoked && s.worker_id == worker_id && is_none s.revoked_at)
        (λ s. record s { revoked_at = some stamp }) db.sessions;
}

abbrev pub executes_for : ℕ → Task → Bool
executes_for worker_id t =
    eq_null t.assigned_worker_id worker_id
    && task_in t.state
        (TaskState.committed ∷ TaskState.queued ∷ TaskState.reserved ∷ TaskState.running ∷ [])

unfoldable pub release_all : ℕ → ℕ → Db → Db
release_all worker_id stamp db = record db {
  leases =
      update_where (λ _ l. l.worker_id == worker_id && is_none l.released_at)
        (λ l. record l { released_at = some stamp }) db.leases;
  attempts =
      update_where (λ _ a. a.worker_id == worker_id && holds_slot a.state)
        (λ a. record a {
          state = AttemptState.cancelled;
          responsibility = some Responsibility.provider;
          failure_code = some worker_offline_code;
          finished_at = some stamp;
        })
        db.attempts;
  tasks =
      update_where (λ _ t. executes_for worker_id t)
        (λ t. record t { state = TaskState.rekey_required; updated_at = stamp }) db.tasks;
}

unfoldable pub interrupt : ℕ → ℕ → Db → Db
unfolding release_all request_rekeys select_keys
interrupt worker_id stamp db =
    request_rekeys "worker_revoked" stamp (select_where (λ _ t. executes_for worker_id t) db.tasks)
      (release_all worker_id stamp db)

-- A forced departure revokes the worker at once; a graceful one waits for what it executes.
unfoldable pub depart : ℕ → Bool → Bool → ℕ → Db → Db
unfolding expire_prepared drain_queue retire interrupt
depart worker_id true revoked stamp db =
    interrupt worker_id stamp (retire worker_id revoked stamp (expire_prepared worker_id stamp db))
depart worker_id false revoked stamp db =
    retire worker_id revoked stamp
      (drain_queue worker_id stamp (expire_prepared worker_id stamp db))

unfoldable pub leave_worker : ℕ → ℕ → Bool → ℕ → Body WorkerStatus
unfolding has_live_attempt depart
leave_worker worker_id owner_user_id force stamp db = do
  w ← found (db.workers.row worker_id) worker_access_denied
  require (w.owner_user_id == owner_user_id) worker_access_denied
  let revoked = force || not (has_live_attempt worker_id db)
  ok (departed revoked, depart worker_id force revoked stamp db)
