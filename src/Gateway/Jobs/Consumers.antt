-- ===== src/Gateway/Jobs/Consumers.antt =====
-- What the people around a worker do with its maintenance jobs: the broker commits the uploaded
-- artifact, the owner cancels (`commit_worker_maintenance` and `cancel_worker_maintenance` of
-- src/vgen/gateway/repository.py). Audit events are left out.
use vgen.Base.{◌==◌, ◌&&◌, true, false, none, some, not, test, if◌then◌else◌, ℕ, Bool, eq_null}
use vgen.Gateway.Tx.{
  ◌>>=◌, ◌>>◌, Body, Result, require, found, maintenance_job_not_found, maintenance_state_conflict,
  broker_device_access_denied, worker_manager_broker_required, maintenance_artifact_not_uploaded,
}
use vgen.Table.{exists_key, update_row, exists_where}
use vgen.Gateway.Db.{JobState, ArtifactState, Db, Worker, Job, WorkerStatus}
use vgen.Gateway.Expiry.{expire_maintenance_jobs}
use vgen.Gateway.Sweep.{is_status}
use vgen.Gateway.Jobs.{is_queued_job, ok}
use vgen.Gateway.Jobs.Reports.{is_cancelled_job}

-- `broker_devices.active` says that the broker, its device and the link are all active, and its
-- owner is taken to be the device's user too.
unfoldable pub require_exact_broker_device : ℕ → ℕ → ℕ → Db → Result (Unit {0})
unfolding exists_key
require_exact_broker_device broker_id user_id device_id db =
    require
      (exists_where
        (λ _ b.
          b.broker_id == broker_id
          && b.owner_user_id == user_id
          && b.device_id == device_id
          && b.active)
        db.broker_devices)
      broker_device_access_denied

abbrev is_managed_by : ℕ → ℕ → Worker → Bool
is_managed_by user_id broker_id w =
    w.owner_user_id == user_id
    && eq_null w.manager_broker_id broker_id
    && not (is_status w.status WorkerStatus.revoked)

unfoldable pub require_broker_maintenance_job : ℕ → ℕ → ℕ → Db → Result Job
unfolding require_exact_broker_device
require_broker_maintenance_job job_id user_id device_id db = do
  j ← found (db.jobs.row job_id) maintenance_job_not_found
  require_exact_broker_device j.broker_id user_id device_id db
  require (test (is_managed_by user_id j.broker_id) (db.workers.row j.worker_id))
      worker_manager_broker_required
  ok j

abbrev pub is_awaiting_upload : JobState → Bool
is_awaiting_upload JobState.awaiting_upload = true
is_awaiting_upload _ = false

abbrev pub is_uploaded : ArtifactState → Bool
is_uploaded ArtifactState.uploaded = true
is_uploaded _ = false

unfoldable pub store_job_commit : ℕ → ℕ → Db → Db
store_job_commit job_id stamp db = record db {
  jobs = update_row job_id (λ j. record j { state = JobState.queued; updated_at = stamp }) db.jobs;
}

abbrev commit_awaiting : ℕ → ℕ → Job → Body JobState
commit_awaiting job_id stamp j db = do
  require (is_awaiting_upload j.state) maintenance_state_conflict
  require (test (λ a. is_uploaded a.state) (db.maintenance_artifacts.row job_id))
      maintenance_artifact_not_uploaded
  ok (JobState.queued, store_job_commit job_id stamp db)

-- The answer is the job's state. A commit in a state other than awaiting_upload changes no job, but
-- the sweep before it is committed with a job that is queued already.
unfoldable pub commit_worker_maintenance : ℕ → ℕ → ℕ → ℕ → Body JobState
unfolding require_broker_maintenance_job expire_maintenance_jobs store_job_commit
commit_worker_maintenance job_id user_id device_id stamp before = do
  first ← require_broker_maintenance_job job_id user_id device_id before
  let db = (expire_maintenance_jobs stamp before).0
  j ← found (db.jobs.row job_id) maintenance_job_not_found
  if is_queued_job j.state then ok (j.state, db) else commit_awaiting job_id stamp j db

unfoldable pub store_job_cancel : ℕ → ℕ → Db → Db
store_job_cancel job_id stamp db = record db {
  jobs =
      update_row job_id
        (λ j. record j {
          state = JobState.cancelled;
          completed_at = some stamp;
          updated_at = stamp;
          lease_expires_at = none;
        })
        db.jobs;
}

abbrev pub is_owned_by : ℕ → Worker → Bool
is_owned_by owner_user_id w = w.owner_user_id == owner_user_id

abbrev pub is_settled : JobState → Bool
is_settled JobState.succeeded = true
is_settled JobState.failed = true
is_settled JobState.expired = true
is_settled _ = false

unfoldable pub cancel_worker_maintenance : ℕ → ℕ → ℕ → Body JobState
unfolding store_job_cancel
cancel_worker_maintenance job_id owner_user_id stamp db = do
  j ← found (db.jobs.row job_id) maintenance_job_not_found
  require (test (is_owned_by owner_user_id) (db.workers.row j.worker_id)) maintenance_job_not_found
  if is_cancelled_job j.state then ok (j.state, db) else (do
    require (not (is_settled j.state)) maintenance_state_conflict
    ok (JobState.cancelled, store_job_cancel job_id stamp db))
