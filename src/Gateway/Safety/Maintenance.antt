-- ===== src/Gateway/Safety/Maintenance.antt =====
-- What is done to maintenance jobs keeps the scheduling database consistent
-- (src/vgen/gateway/repository.py): it writes no row of a task, an attempt or a lease, and no token.
use vgen.Base.{
  none, some, true, false, inl, inr, refl, arith, ◌==◌, ◌&&◌, ◌≡◌, if◌then◌else◌, ℕ, Bool, Option,
  Option-cases, Bool-cases, test, not, String,
}
use vgen.Gateway.Tx.{
  Ensures, Ensures-found, Ensures-raise, maintenance_job_not_found, maintenance_lease_lost,
  Ensures-bind, Ensures-require, Ensures-if, Ensures-ok, maintenance_state_conflict,
  maintenance_artifact_not_uploaded, maintenance_result_invalid,
}
use vgen.Gateway.Jobs.Consumers.{
  commit_worker_maintenance, cancel_worker_maintenance, store_job_commit, store_job_cancel,
  require_broker_maintenance_job, is_owned_by, is_awaiting_upload, is_settled, is_uploaded,
}
use vgen.Gateway.Jobs.Reports.{
  heartbeat_job, store_job_heartbeat, JobHeartbeat, is_cancelled_job, lease_valid, is_active,
}
use vgen.Gateway.Jobs.Authorizations.{
  record_maintenance_authorizations, Authority, Identifiers, is_capability,
}
use vgen.Gateway.Jobs.Completion.{
  store_completion, complete_job, store_success, JobReport, or_stamp, authorizes, is_completed,
  is_succeeded, same_stored, may_complete, result_kind, is_valid_result, completed_job,
}
use vgen.Gateway.Db.{
  Job, Db, Worker, Attempt, JobState, WorkerStatus, MaintenanceArtifact, Artifact,
}
use vgen.Gateway.Safety.{IsConsistent, fine, token_drawn}
use vgen.Table.{update_where}
use vgen.Gateway.Safety.Sweeps.{IsConsistent-same}
use vgen.Gateway.Safety.Leases.{Kept}
use vgen.Gateway.Expiry.{expire_maintenance_jobs}
use vgen.Gateway.Safety.Claims.{expire_maintenance_jobs-IsConsistent}
use vgen.Gateway.Jobs.{is_queued_job, kind_index}
use vgen.Gateway.Installs.{same_flag}
use vgen.Gateway.Sweep.{is_status}
use vgen.Gateway.Jobs.Uploads.{
  mark_maintenance, mark_artifact_uploaded, store_match, store_upload, store_mismatch,
  is_transferable, is_digest_of, maintenance_upload,
}

-- An UPDATE of workers that leaves their counters.
pub IsConsistent-workers :
    (p : ℕ → Worker → Bool) (f : Worker → Worker) {db : Db}
    → ((w : Worker) → (f w).fencing_counter ≡ w.fencing_counter)
    → IsConsistent db
    → IsConsistent (record db { workers = update_where p f db.workers })
IsConsistent-workers p f {db} same h = record {
  leases_table = h.leases_table;
  attempts_table = h.attempts_table;
  tasks_table = h.tasks_table;
  tasks_agree = h.tasks_agree;
  leases_agree = h.leases_agree;
  tokens_drawn = λ k. drawn k (db.attempts.row k) (h.tokens_drawn k);
  leases_fenced = h.leases_fenced;
  live_unique = h.live_unique;
  not_started = h.not_started;
  workers_agree = λ k. ground (arith, h.workers_agree k, h.tasks_agree k);
  attempts_drawn = h.attempts_drawn;
  tasks_drawn = h.tasks_drawn;
  leases_drawn = h.leases_drawn;
  tokens_unique = h.tokens_unique;
}
  where
    drawn :
        (k : ℕ) (o : Option Attempt)
        → fine (token_drawn db k) o ≡ true
        → fine (token_drawn (record db { workers = update_where p f db.workers }) k) o ≡ true
    drawn k none e = refl
    drawn k (some a) e = elim (Option-cases (db.workers.row a.worker_id)) [
      | inl m ↦ ground arith
      | inr (w, m) ↦ elim (Bool-cases (p a.worker_id w)) [
        | inl hit ↦ rw (m, hit, same w) (ground arith)
        | inr miss ↦ rw (m, miss) (ground arith)
      ]
    ]

pub commit_maintenance-IsConsistent :
    (job_id user_id device_id stamp : ℕ) (db : Db)
    → IsConsistent db
    → Ensures Kept (commit_worker_maintenance job_id user_id device_id stamp db)
unfolding commit_worker_maintenance store_job_commit
commit_maintenance-IsConsistent job_id user_id device_id stamp db h =
    let s = (expire_maintenance_jobs stamp db).0 in
    let kept = expire_maintenance_jobs-IsConsistent stamp db h in
    Ensures-bind (require_broker_maintenance_job job_id user_id device_id db) _ λ first e.
      Ensures-found (s.jobs.row job_id) maintenance_job_not_found _ λ j row.
        Ensures-if (is_queued_job j.state) _ _ (λ queued. Ensures-ok j.state s kept)
          λ other.
            Ensures-require (is_awaiting_upload j.state) maintenance_state_conflict _ λ awaiting.
              Ensures-require (test (λ a. is_uploaded a.state) (s.maintenance_artifacts.row job_id))
                maintenance_artifact_not_uploaded _
                λ uploaded.
                  Ensures-ok JobState.queued _ (IsConsistent-same kept refl refl refl refl refl)

pub cancel_maintenance-IsConsistent :
    (job_id owner_user_id stamp : ℕ) (db : Db)
    → IsConsistent db
    → Ensures Kept (cancel_worker_maintenance job_id owner_user_id stamp db)
unfolding cancel_worker_maintenance store_job_cancel
cancel_maintenance-IsConsistent job_id owner_user_id stamp db h =
    Ensures-found (db.jobs.row job_id) maintenance_job_not_found _ λ j row.
      Ensures-require (test (is_owned_by owner_user_id) (db.workers.row j.worker_id))
        maintenance_job_not_found _
        λ owned.
          Ensures-if (is_cancelled_job j.state) _ _ (λ again. Ensures-ok j.state db h)
            λ other.
              Ensures-require (not (is_settled j.state)) maintenance_state_conflict _ λ going.
                Ensures-ok JobState.cancelled _ (IsConsistent-same h refl refl refl refl refl)

pub heartbeat_job-IsConsistent :
    (r : JobHeartbeat) (stamp : ℕ) (o : Option Job) (db : Db)
    → IsConsistent db
    → Ensures Kept (heartbeat_job r stamp o db)
unfolding heartbeat_job store_job_heartbeat
heartbeat_job-IsConsistent r stamp none db h = Ensures-raise maintenance_lease_lost
heartbeat_job-IsConsistent r stamp (some j) db h =
    Ensures-if (is_cancelled_job j.state) _ _ (λ over. Ensures-ok _ db h)
      λ going.
        Ensures-require (lease_valid r stamp j && is_active (db.workers.row r.worker_id))
          maintenance_lease_lost _
          λ valid. Ensures-ok _ _ (
            IsConsistent-same
              (IsConsistent-workers
                (λ k w. k == r.worker_id && is_status w.status WorkerStatus.active)
                (λ w. record w { last_seen_at = some stamp; updated_at = stamp }) (λ w. refl) h)
              refl refl refl refl refl)

record_authorizations-IsConsistent :
    (job_id stamp : ℕ) (j : Job) (o : Option Identifiers) (db : Db)
    → IsConsistent db
    → IsConsistent (record_maintenance_authorizations job_id j o stamp db)
unfolding record_maintenance_authorizations
record_authorizations-IsConsistent job_id stamp j none db h = h
record_authorizations-IsConsistent job_id stamp j (some ids) db h =
    IsConsistent-same h refl refl refl refl refl

IsConsistent-if :
    (b : Bool) (x y : Db) → IsConsistent x → IsConsistent y → IsConsistent (if b then x else y)
IsConsistent-if true x y h k = h
IsConsistent-if false x y h k = k

store_completion-IsConsistent :
    (auth : Authority) (r : JobReport) (j : Job) (stamp : ℕ) (db : Db)
    → IsConsistent db
    → IsConsistent (store_completion auth r j stamp db)
unfolding store_completion store_success
store_completion-IsConsistent auth r j stamp db h =
    IsConsistent-if r.succeeded _ _
      (IsConsistent-workers (λ k _. k == r.worker_id && is_capability j.kind)
        (λ w. record w {
          capability_auth_enforced_at = or_stamp w.capability_auth_enforced_at stamp;
        })
        (λ w. refl)
        (IsConsistent-if (authorizes j.kind) _ _
          (record_authorizations-IsConsistent r.job_id stamp j (auth.bound_identifiers j.spec) _
            (IsConsistent-same h refl refl refl refl refl))
          (IsConsistent-same h refl refl refl refl refl)))
      (IsConsistent-same h refl refl refl refl refl)

pub complete_job-IsConsistent :
    (auth : Authority) (r : JobReport) (stamp : ℕ) (o : Option Job) (db : Db)
    → IsConsistent db
    → Ensures Kept (complete_job auth r stamp o db)
unfolding complete_job
complete_job-IsConsistent auth r stamp none db h = Ensures-raise maintenance_lease_lost
complete_job-IsConsistent auth r stamp (some j) db h =
    Ensures-if (is_completed j.state) _ _
      (λ over.
        Ensures-require
          (same_flag (is_succeeded j.state) r.succeeded && same_stored j.result r.result)
          maintenance_state_conflict _ λ same. Ensures-ok j db h)
      λ going. Ensures-require (may_complete r stamp j) maintenance_lease_lost _ λ held.
        Ensures-require (kind_index (result_kind r.result) == kind_index j.kind)
          maintenance_result_invalid _
          λ kind. Ensures-require (is_valid_result auth r j) maintenance_result_invalid _ λ valid.
            Ensures-ok (completed_job r stamp j) (store_completion auth r j stamp db)
              (store_completion-IsConsistent auth r j stamp db h)

mark_maintenance-IsConsistent :
    (size : ℕ) (digest : Option String) (stamp : ℕ) (o : Option (ℕ × MaintenanceArtifact)) (db : Db)
    → IsConsistent db
    → IsConsistent (mark_maintenance size digest stamp o db).1
unfolding mark_maintenance store_match store_mismatch
mark_maintenance-IsConsistent size digest stamp none db h = h
mark_maintenance-IsConsistent size digest stamp (some (job_id, a)) db h =
    elim (Bool-cases (is_transferable a.state)) [
      | inr shut ↦ rw shut h
      | inl open_ ↦ elim (Bool-cases (size == a.expected_size && is_digest_of a digest)) [
        | inl same ↦ rw (open_, same) (IsConsistent-same h refl refl refl refl refl)
        | inr other ↦ rw (open_, other) (IsConsistent-same h refl refl refl refl refl)
      ]
    ]

pub mark_artifact_uploaded-IsConsistent :
    (prefixed : String → String) (artifact_id size : ℕ) (digest : Option String) (stamp : ℕ)
    (db : Db)
    → IsConsistent db
    → IsConsistent (mark_artifact_uploaded prefixed artifact_id size digest stamp db).1
unfolding mark_artifact_uploaded store_upload
mark_artifact_uploaded-IsConsistent prefixed artifact_id size digest stamp db h =
    elim (Bool-cases
      (test (λ (a : Artifact). is_transferable a.state) (db.artifacts.row artifact_id))) [
        | inl there ↦ rw there (IsConsistent-same h refl refl refl refl refl)
        | inr other ↦ rw other (
            mark_maintenance-IsConsistent size digest stamp (maintenance_upload artifact_id db) db
              h)
      ]
