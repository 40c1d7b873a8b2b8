-- ===== src/Gateway/Workers/Departure.antt =====
-- A worker that leaves keeps nothing (`leave_worker` of src/vgen/gateway/repository.py).
use vgen.Base.{
  [], ◌∷◌, some, true, false, refl, arith, ◌==◌, ◌&&◌, ◌≡◌, ◌∙◌, ℕ, String, Bool, List, test, not,
  is_none, ap, eq_null, ==_refl, ◌||◌,
}
use vgen.Gateway.Tx.{
  ok, Ensures, Ensures-found, Ensures-at, worker_access_denied, Ensures-require, Ensures-ok,
}
use vgen.Gateway.Safety.{◌⇒◌, fine}
use vgen.Gateway.Db.{Db, Worker, WorkerStatus}
use vgen.Gateway.Workers.{
  request_rekeys, depart, enqueue_task_rekey_command, is_status, holds_slot, drain_queue, key_of,
  departed, retire, last_attempt, is_open_job, release_queue, is_prepared_for, expire_prepared,
  waits_for, task_in, select_where, TaskState, interrupt, leave_worker, release_all,
  has_live_attempt, executes_for,
}
use vgen.Gateway.Safety.Sweeps.{enqueue-eq}

-- Rekey commands write no table but their own.
pub record SameButCommands (db db' : Db) : Type 0 where
  pub attempts_eq : db'.attempts ≡ db.attempts
  pub tasks_eq : db'.tasks ≡ db.tasks
  pub leases_eq : db'.leases ≡ db.leases
  pub jobs_eq : db'.jobs ≡ db.jobs
  pub workers_eq : db'.workers ≡ db.workers
  pub sessions_eq : db'.sessions ≡ db.sessions
  pub allocations_eq : db'.allocations ≡ db.allocations

request_rekeys-same :
    (reason : String) (stamp : ℕ) (ks : List ℕ) (db : Db)
    → SameButCommands db (request_rekeys reason stamp ks db)
unfolding request_rekeys
request_rekeys-same reason stamp [] db = record {
  attempts_eq = refl;
  tasks_eq = refl;
  leases_eq = refl;
  jobs_eq = refl;
  workers_eq = refl;
  sessions_eq = refl;
  allocations_eq = refl;
}
request_rekeys-same reason stamp (k ∷ ks) db =
    let sent = (enqueue_task_rekey_command k (key_of (last_attempt k db)) reason stamp db).0 in
    let rest = request_rekeys-same reason stamp ks sent in
    let e = enqueue-eq k (key_of (last_attempt k db)) reason stamp db in
    record {
      attempts_eq = rest.attempts_eq ∙ ap (λ (d : Db). d.attempts) e;
      tasks_eq = rest.tasks_eq ∙ ap (λ (d : Db). d.tasks) e;
      leases_eq = rest.leases_eq ∙ ap (λ (d : Db). d.leases) e;
      jobs_eq = rest.jobs_eq ∙ ap (λ (d : Db). d.jobs) e;
      workers_eq = rest.workers_eq ∙ ap (λ (d : Db). d.workers) e;
      sessions_eq = rest.sessions_eq ∙ ap (λ (d : Db). d.sessions) e;
      allocations_eq = rest.allocations_eq ∙ ap (λ (d : Db). d.allocations) e;
    }

-- What a departure settles: nothing of the worker is open for more work.
pub record IsLeft (worker_id : ℕ) (revoked : Bool) (db : Db) : Type 0 where
  pub worker_status :
      test (λ w. is_status w.status (departed revoked)) (db.workers.row worker_id) ≡ true
  pub unallocated :
      (k : ℕ) → fine (λ a. not (a.worker_id == worker_id && a.active)) (db.allocations.row k) ≡ true
  pub jobs_closed :
      (k : ℕ)
      → fine (λ j. not (j.worker_id == worker_id && is_open_job j.state)) (db.jobs.row k) ≡ true
  pub sessions_closed :
      (k : ℕ)
      → fine
          (λ s. revoked && s.worker_id == worker_id ⇒ not (is_none s.revoked_at))
          (db.sessions.row k)
        ≡ true
  pub nothing_prepared :
      (k : ℕ) → fine (λ t. not (is_prepared_for worker_id t)) (db.tasks.row k) ≡ true
  pub nothing_queued :
      (k : ℕ)
      → fine
          (λ t. not (
            eq_null t.assigned_worker_id worker_id
            && task_in t.state (TaskState.committed ∷ TaskState.queued ∷ [])))
          (db.tasks.row k)
        ≡ true

-- What a forced departure interrupts besides.
pub record IsInterrupted (worker_id : ℕ) (db : Db) : Type 0 where
  pub attempts_over :
      (k : ℕ)
      → fine (λ a. not (a.worker_id == worker_id && holds_slot a.state)) (db.attempts.row k) ≡ true
  pub leases_released :
      (k : ℕ)
      → fine (λ l. l.worker_id == worker_id ⇒ not (is_none l.released_at)) (db.leases.row k) ≡ true

departed_refl : (b : Bool) → is_status (departed b) (departed b) ≡ true
departed_refl true = refl
departed_refl false = refl

module _ (worker_id stamp : ℕ) (w : Worker) (db : Db)
    (row : db.workers.row worker_id ≡ some w) where
  graceful-IsLeft :
      (revoked : Bool) → IsLeft worker_id revoked (depart worker_id false revoked stamp db)
  unfolding depart drain_queue retire release_queue expire_prepared waits_for
  graceful-IsLeft revoked =
      let prepared = expire_prepared worker_id stamp db in
      let same =
        request_rekeys-same "worker_draining" stamp
          (select_where (waits_for worker_id prepared) prepared.tasks)
          (release_queue worker_id stamp prepared) in
      record {
        worker_status = rw same.workers_eq (rw (row, ==_refl worker_id) (departed_refl revoked));
        unallocated = λ k. rw same.allocations_eq (ground arith);
        jobs_closed = λ k. rw same.jobs_eq (ground arith);
        sessions_closed = λ k. rw same.sessions_eq (ground arith);
        nothing_prepared = λ k. rw same.tasks_eq (ground arith);
        nothing_queued = λ k. rw same.tasks_eq (ground arith);
      }

  forced-IsLeft : IsLeft worker_id true (depart worker_id true true stamp db)
  unfolding depart interrupt retire release_all expire_prepared
  forced-IsLeft =
      let retired = retire worker_id true stamp (expire_prepared worker_id stamp db) in
      let same =
        request_rekeys-same "worker_revoked" stamp
          (select_where (λ _ t. executes_for worker_id t) retired.tasks)
          (release_all worker_id stamp retired) in
      record {
        worker_status = rw same.workers_eq (rw (row, ==_refl worker_id) refl);
        unallocated = λ k. rw same.allocations_eq (ground arith);
        jobs_closed = λ k. rw same.jobs_eq (ground arith);
        sessions_closed = λ k. rw same.sessions_eq (ground arith);
        nothing_prepared = λ k. rw same.tasks_eq (ground arith);
        nothing_queued = λ k. rw same.tasks_eq (ground arith);
      }

  forced-IsInterrupted : IsInterrupted worker_id (depart worker_id true true stamp db)
  unfolding depart interrupt retire release_all expire_prepared
  forced-IsInterrupted =
      let retired = retire worker_id true stamp (expire_prepared worker_id stamp db) in
      let same =
        request_rekeys-same "worker_revoked" stamp
          (select_where (λ _ t. executes_for worker_id t) retired.tasks)
          (release_all worker_id stamp retired) in
      record {
        attempts_over = λ k. rw same.attempts_eq (ground arith);
        leases_released = λ k. rw same.leases_eq (ground arith);
      }

abbrev pub IsInterruptedIf : Bool → ℕ → Db → Type 0
IsInterruptedIf true worker_id db = IsInterrupted worker_id db
IsInterruptedIf false worker_id db = Unit

abbrev pub Left : ℕ → Bool → Bool → WorkerStatus → Db → Type 0
Left worker_id force revoked status db =
    ((status ≡ departed revoked) × IsLeft worker_id revoked db) × IsInterruptedIf force worker_id db

leave_worker-Left :
    (worker_id owner_user_id : ℕ) (force : Bool) (stamp : ℕ) (db : Db)
    → Ensures
        (Left worker_id force (force || not (has_live_attempt worker_id db)))
        (leave_worker worker_id owner_user_id force stamp db)
unfolding leave_worker
leave_worker-Left worker_id owner_user_id true stamp db =
    Ensures-found (db.workers.row worker_id) worker_access_denied _ λ w row.
      Ensures-require (w.owner_user_id == owner_user_id) worker_access_denied _ λ owned.
        Ensures-ok WorkerStatus.revoked (depart worker_id true true stamp db) (
          (refl, forced-IsLeft worker_id stamp w db row),
          forced-IsInterrupted worker_id stamp w db row,
        )
leave_worker-Left worker_id owner_user_id false stamp db =
    Ensures-found (db.workers.row worker_id) worker_access_denied _ λ w row.
      Ensures-require (w.owner_user_id == owner_user_id) worker_access_denied _ λ owned.
        let revoked = not (has_live_attempt worker_id db) in
        Ensures-ok (departed revoked) (depart worker_id false revoked stamp db)
          ((refl, graceful-IsLeft worker_id stamp w db row revoked), tt)

-- A departure that is answered leaves no allocation and no open maintenance job of the worker, and no
-- prepared, committed or queued task assigned to it; the worker is revoked, with its sessions, if it
-- is forced or has no live attempt, and draining otherwise; forced, it also ends each of the worker's
-- attempts and leases.
pub leave_worker_lem :
    (worker_id owner_user_id : ℕ) (force : Bool) (stamp : ℕ) (db db' : Db) (status : WorkerStatus)
    → leave_worker worker_id owner_user_id force stamp db ≡ ok (status, db')
    → Left worker_id force (force || not (has_live_attempt worker_id db)) status db'
leave_worker_lem worker_id owner_user_id force stamp db db' status e =
    Ensures-at (leave_worker worker_id owner_user_id force stamp db) e
      (leave_worker-Left worker_id owner_user_id force stamp db)
