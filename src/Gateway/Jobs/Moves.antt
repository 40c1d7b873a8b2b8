-- ===== src/Gateway/Jobs/Moves.antt =====
-- The sweep, commits, cancellations and heartbeats move the maintenance jobs along their machine
-- (src/vgen/gateway/repository.py).
use vgen.Base.{true, inl, inr, arith, ◌≡◌, ℕ, not, ◌&&◌, test, Option-cases, Bool-cases}
use vgen.Gateway.Tx.{
  Ensures, Ensures-found, maintenance_job_not_found, Ensures-require, Ensures-if, Ensures-bind,
  Ensures-ok, maintenance_state_conflict, maintenance_artifact_not_uploaded, Ensures-raise,
  maintenance_lease_lost,
}
use vgen.Gateway.Jobs.Machine.{
  JobsMoved, JobsMoved-refl, JobsMoved-trans, JobsMoved-update_where, JobsMoved-update_row, Moved,
  stay, move, JobStep, JobPath, Sweeping, of_commit,
}
use vgen.Gateway.Db.{Db, Job, JobState}
use vgen.Gateway.Expiry.{
  expire_maintenance_jobs, is_window_over, is_abandoned, expired_job, requeued_job, close_windows,
  requeue_abandoned,
}
use vgen.Gateway.Jobs.Consumers.{
  commit_worker_maintenance, cancel_worker_maintenance, store_job_commit, store_job_cancel,
  is_awaiting_upload, require_broker_maintenance_job, is_settled, is_uploaded, is_owned_by,
}
use vgen.Gateway.Jobs.Reports.{
  heartbeat_worker_maintenance, JobHeartbeat, is_cancelled_job, heartbeat_job, fenced_job,
  store_job_heartbeat, of_worker, lease_valid, is_active,
}
use vgen.Gateway.Jobs.{is_queued_job}
use vgen.Gateway.Jobs.Drivers.{
  JobRequest, commit_maintenance, cancel_maintenance, heartbeat_maintenance,
}

-- A body after which each job of a database has moved.
abbrev pub JobsKept : {A : Type 0} → JobRequest → Db → A → Db → Type 0
JobsKept q before a db = JobsMoved q before.jobs db.jobs

pub expire_maintenance_jobs-moved :
    {q : JobRequest}
    → Sweeping q
    → (stamp : ℕ) (db : Db) → JobsMoved q db.jobs (expire_maintenance_jobs stamp db).0.jobs
unfolding expire_maintenance_jobs
expire_maintenance_jobs-moved {q} sweeps stamp db =
    let closed = close_windows stamp db.jobs in
    JobsMoved-trans q db.jobs closed (requeue_abandoned stamp closed)
      (JobsMoved-update_where q (λ _ j. is_window_over stamp j) (expired_job stamp) db.jobs
        (λ k j row hit. expired k j hit))
      (JobsMoved-update_where q (λ _ j. is_abandoned stamp j) (requeued_job stamp) closed
        (λ k j row hit. requeued k j hit))
  where
    expired : (k : ℕ) (j : Job) → is_window_over stamp j ≡ true → Moved q k j (expired_job stamp j)
    expired k j hit = record {
      path = move (JobStep.window_over sweeps (ground arith)) stay;
      token = omega arith;
      settled = λ over. ground arith;
    }

    requeued : (k : ℕ) (j : Job) → is_abandoned stamp j ≡ true → Moved q k j (requeued_job stamp j)
    requeued k j hit = record {
      path = move (JobStep.abandoned sweeps (ground arith)) stay;
      token = omega arith;
      settled = λ over. ground arith;
    }

module _ (stamp : ℕ) where
  pub commit-moved :
      (job_id user_id device_id : ℕ) (db : Db)
      → Ensures
          (JobsKept (commit_maintenance job_id user_id device_id) db)
          (commit_worker_maintenance job_id user_id device_id stamp db)
  unfolding commit_worker_maintenance store_job_commit
  commit-moved job_id user_id device_id db =
      let q = commit_maintenance job_id user_id device_id in
      let s = (expire_maintenance_jobs stamp db).0 in
      let swept = expire_maintenance_jobs-moved of_commit stamp db in
      Ensures-bind (require_broker_maintenance_job job_id user_id device_id db) _ λ first e.
        Ensures-found (s.jobs.row job_id) maintenance_job_not_found _ λ j row.
          Ensures-if (is_queued_job j.state) _ _ (λ queued. Ensures-ok j.state s swept)
            λ other.
              Ensures-require (is_awaiting_upload j.state) maintenance_state_conflict _ λ awaiting.
                Ensures-require
                  (test (λ a. is_uploaded a.state) (s.maintenance_artifacts.row job_id))
                  maintenance_artifact_not_uploaded _
                  λ uploaded. Ensures-ok JobState.queued (store_job_commit job_id stamp s) (
                    JobsMoved-trans q db.jobs s.jobs (store_job_commit job_id stamp s).jobs swept (
                      JobsMoved-update_row q job_id j
                        (λ i. record i { state = JobState.queued; updated_at = stamp }) s.jobs row
                        (committed j awaiting)))
    where
      committed :
          (j : Job)
          → is_awaiting_upload j.state ≡ true
          → Moved
              (commit_maintenance job_id user_id device_id)
              job_id
              j
              (record j { state = JobState.queued; updated_at = stamp })
      committed j awaiting = record {
        path = from j.state awaiting;
        token = omega arith;
        settled = λ over. ground arith;
      }
        where
          from :
              (s : JobState)
              → is_awaiting_upload s ≡ true
              → JobPath (commit_maintenance job_id user_id device_id) job_id s JobState.queued
          from JobState.awaiting_upload e = move JobStep.upload_committed stay
          from _ e = ground arith

  pub cancel-moved :
      (job_id owner_user_id : ℕ) (db : Db)
      → Ensures
          (JobsKept (cancel_maintenance job_id owner_user_id) db)
          (cancel_worker_maintenance job_id owner_user_id stamp db)
  unfolding cancel_worker_maintenance store_job_cancel
  cancel-moved job_id owner_user_id db =
      Ensures-found (db.jobs.row job_id) maintenance_job_not_found _ λ j row.
        Ensures-require (test (is_owned_by owner_user_id) (db.workers.row j.worker_id))
          maintenance_job_not_found _
          λ owned.
            Ensures-if (is_cancelled_job j.state) _ _
              (λ again. Ensures-ok j.state db (JobsMoved-refl _ db.jobs))
              λ other.
                Ensures-require (not (is_settled j.state)) maintenance_state_conflict _ λ going.
                  Ensures-ok JobState.cancelled _ (
                    JobsMoved-update_row _ job_id j _ db.jobs row (record {
                      path = move (JobStep.cancelled (ground arith)) stay;
                      token = omega arith;
                      settled = λ over. ground arith;
                    }))

  pub heartbeat-moved :
      (h : JobHeartbeat) (db : Db)
      → Ensures (JobsKept (heartbeat_maintenance h) db) (heartbeat_worker_maintenance h stamp db)
  unfolding heartbeat_worker_maintenance heartbeat_job fenced_job store_job_heartbeat
  heartbeat-moved h db = elim (Option-cases (db.jobs.row h.job_id)) [
    | inl e ↦ rw e (Ensures-raise maintenance_lease_lost)
    | inr (j, e) ↦ elim (Bool-cases (of_worker h.worker_id h.fencing_token j)) [
      | inl mine ↦
          rw (e, mine)
            (Ensures-if (is_cancelled_job j.state) _ _
              (λ over. Ensures-ok _ db (JobsMoved-refl _ db.jobs))
              λ going.
                Ensures-require (lease_valid h stamp j && is_active (db.workers.row h.worker_id))
                  maintenance_lease_lost _
                  λ valid. Ensures-ok _ _ (
                    JobsMoved-update_row _ h.job_id j _ db.jobs e (record {
                      path = move (JobStep.reported (ground arith) h) stay;
                      token = omega arith;
                      settled = λ over. ground arith;
                    })))
      | inr other ↦ rw (e, other) (Ensures-raise maintenance_lease_lost)
    ]
  ]
