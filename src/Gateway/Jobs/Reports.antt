-- ===== src/Gateway/Jobs/Reports.antt =====
-- The heartbeat of the worker that holds a maintenance job (`heartbeat_worker_maintenance` of
-- src/vgen/gateway/repository.py).
use vgen.Base.{
  ℕ, ◌+◌, String, Bool, true, false, ◌&&◌, Option, none, some, ◌==◌, if◌then◌else◌, ltb, ahead,
  eq_null, min, test,
}
use vgen.Table.{update_row, update_where}
use vgen.Gateway.Db.{Db, Job, JobState, JobKind, Worker, WorkerStatus}
use vgen.Gateway.Tx.{Body, ok, raise, ◌>>◌, require, maintenance_lease_lost}
use vgen.Gateway.Expiry.{is_held_job}
use vgen.Gateway.Sweep.{is_status}

-- The job of a worker under a token.
abbrev pub of_worker : ℕ → ℕ → Job → Bool
of_worker worker_id fencing_token j = j.worker_id == worker_id && j.fencing_token == fencing_token

abbrev fenced_row : ℕ → ℕ → Option Job → Option Job
fenced_row worker_id fencing_token none = none
fenced_row worker_id fencing_token (some j) =
    if of_worker worker_id fencing_token j then some j else none

unfoldable pub fenced_job : ℕ → ℕ → ℕ → Db → Option Job
fenced_job job_id worker_id fencing_token db =
    fenced_row worker_id fencing_token (db.jobs.row job_id)

-- The schema of a heartbeat admits two states.
pub data ReportedState : Type 0 where
  running restarting : ReportedState

abbrev pub reported_job_state : ReportedState → JobState
reported_job_state ReportedState.running = JobState.running
reported_job_state ReportedState.restarting = JobState.restarting

pub record JobHeartbeat : Type 0 where
  pub job_id : ℕ
  pub worker_id : ℕ
  pub session_id : ℕ
  pub fencing_token : ℕ
  pub ttl_seconds : ℕ
  pub state : ReportedState
  pub progress : String
  pub adopt_restart_session : Bool

abbrev pub is_restarting : JobState → Bool
is_restarting JobState.restarting = true
is_restarting _ = false

abbrev reports_restart : ReportedState → Bool
reports_restart ReportedState.restarting = true
reports_restart ReportedState.running = false

abbrev pub is_update : JobKind → Bool
is_update JobKind.worker_update = true
is_update _ = false

abbrev pub lease_unexpired : ℕ → Job → Bool
lease_unexpired stamp j = ahead j.lease_expires_at stamp && ltb stamp j.expires_at

-- An update hands its lease over to the session of the restarted process.
abbrev pub lease_valid : JobHeartbeat → ℕ → Job → Bool
lease_valid h stamp j =
    lease_unexpired stamp j
    && (if h.adopt_restart_session
        then is_update j.kind && is_restarting j.state && reports_restart h.state
        else eq_null j.lease_session_id h.session_id && is_held_job j.state)

-- Both updates of the row.
abbrev pub refreshed_job : JobHeartbeat → ℕ → Job → Job
refreshed_job h stamp j = record j {
  lease_session_id = if h.adopt_restart_session then some h.session_id else j.lease_session_id;
  state = reported_job_state h.state;
  progress = h.progress;
  heartbeat_at = some stamp;
  lease_expires_at = some (min (stamp + h.ttl_seconds) j.expires_at);
  updated_at = stamp;
}

-- The worker was just seen to be active, so that its row is always found again.
unfoldable pub store_job_heartbeat : JobHeartbeat → ℕ → Db → Db
store_job_heartbeat h stamp db = record db {
  jobs = update_row h.job_id (refreshed_job h stamp) db.jobs;
  workers =
      update_where (λ k w. k == h.worker_id && is_status w.status WorkerStatus.active)
        (λ w. record w { last_seen_at = some stamp; updated_at = stamp }) db.workers;
}

pub record JobDirective : Type 0 where
  pub cancelled : Bool
  pub state : JobState
  pub lease_expires_at : Option ℕ

abbrev pub is_active : Option Worker → Bool
is_active o = test (λ w. is_status w.status WorkerStatus.active) o

abbrev held_heartbeat : JobHeartbeat → ℕ → Job → Body JobDirective
held_heartbeat h stamp j db = do
  require (lease_valid h stamp j && is_active (db.workers.row h.worker_id)) maintenance_lease_lost
  ok (
    record {
      cancelled = false;
      state = reported_job_state h.state;
      lease_expires_at = some (min (stamp + h.ttl_seconds) j.expires_at);
    },
    store_job_heartbeat h stamp db,
  )

abbrev pub is_cancelled_job : JobState → Bool
is_cancelled_job JobState.cancelled = true
is_cancelled_job _ = false

unfoldable pub heartbeat_job : JobHeartbeat → ℕ → Option Job → Body JobDirective
unfolding store_job_heartbeat
heartbeat_job h stamp none db = raise maintenance_lease_lost
heartbeat_job h stamp (some j) db =
    if is_cancelled_job j.state
    then ok (record { cancelled = true; state = JobState.cancelled; lease_expires_at = none }, db)
    else held_heartbeat h stamp j db

unfoldable pub heartbeat_worker_maintenance : JobHeartbeat → ℕ → Body JobDirective
unfolding fenced_job heartbeat_job
heartbeat_worker_maintenance h stamp db =
    heartbeat_job h stamp (fenced_job h.job_id h.worker_id h.fencing_token db) db
