-- ===== src/Gateway/Sweep/Effects.antt =====
-- What the sweeps leave behind (`_expire_reservations`, `_finalize_drained_workers` and
-- `_expire_maintenance_jobs` of src/vgen/gateway/repository.py).
use vgen.Table.Counts.{exists_false}
use vgen.Gateway.Db.{Db, Task, Attempt, Worker, WorkerStatus, Job}
use vgen.Gateway.Sweep.{
  expire_reservations, is_reservation_expired, task_expired, finalize_drained_workers, is_drained,
  is_status, holds_slot, AttemptState, TaskState,
}
use vgen.Gateway.Expiry.{expire_maintenance_jobs, is_open_job, is_held_job}
use vgen.Gateway.Safety.{IsConsistent}
use vgen.Base.{
  ◌==◌, ◌&&◌, ◌<◌, ◌≡◌, ◌≢◌, ◌≤◌, ◌⊎◌, refl, some, inl, inr, true, false, arith, ℕ, test, passed,
  Bool-cases,
}

-- The states in which a task waits under a reservation.
abbrev pub Waits : TaskState → Type 0
Waits s =
    (s ≡ TaskState.prepared)
    ⊎ ((s ≡ TaskState.committed) ⊎ ((s ≡ TaskState.queued) ⊎ (s ≡ TaskState.rekey_required)))

selected :
    (stamp until : ℕ) (t : Task)
    → t.reservation_expires_at ≡ some until
    → until ≤ stamp
    → Waits t.state
    → is_reservation_expired stamp t ≡ true
selected stamp until t reserved over (inl e) = rw (reserved, e) (ground arith)
selected stamp until t reserved over (inr (inl e)) = rw (reserved, e) (ground arith)
selected stamp until t reserved over (inr (inr (inl e))) = rw (reserved, e) (ground arith)
selected stamp until t reserved over (inr (inr (inr e))) = rw (reserved, e) (ground arith)

-- The sweep of the reservations expires each task that is prepared, committed, queued or waiting for
-- a rekey under a reservation that is over, and none of the attempts of the task is reserved or
-- leased afterwards.
pub expire_reservations_clears :
    (stamp until : ℕ) (db : Db) (k j : ℕ) (t : Task) (a : Attempt)
    → db.tasks.row k ≡ some t
    → t.reservation_expires_at ≡ some until
    → until ≤ stamp
    → Waits t.state
    → (expire_reservations stamp db).attempts.row j ≡ some a
    → a.task_id ≡ k
    → (u : Task) × ((expire_reservations stamp db).tasks.row k ≡ some u)
      × (u.state ≡ TaskState.expired)
      × (a.state ≢ AttemptState.reserved)
      × (a.state ≢ AttemptState.leased)
unfolding expire_reservations task_expired
expire_reservations_clears stamp until db k j t a row reserved over waits arow mine =
    let hit = selected stamp until t reserved over waits in
    (
      record t { state = TaskState.expired; finished_at = some stamp; updated_at = stamp },
      rw (row, hit) refl,
      refl,
      λ e. ground arith,
      λ e. ground arith,
    )

drained_worker_idle :
    (stamp : ℕ) (db : Db) (k j : ℕ) (w : Worker) (a : Attempt)
    → IsConsistent db
    → is_drained db k w ≡ true
    → db.attempts.row j ≡ some a
    → a.worker_id ≡ k
    → holds_slot a.state ≡ false
unfolding is_drained
drained_worker_idle stamp db k j w a h drained row mine = ground (
  arith,
  exists_false (λ _ b. b.worker_id == k && holds_slot b.state) db.attempts h.attempts_table
      (ground arith) j a row,
)

drained_status :
    (db : Db) (k : ℕ) (w : Worker)
    → is_drained db k w ≡ true
    → is_status w.status WorkerStatus.draining ≡ true
unfolding is_drained
drained_status db k w drained = ground arith

-- A worker of a consistent database that the sweep changes was draining, is revoked afterwards, and
-- has no attempt that is reserved, leased or running.
pub retired_worker_idle :
    (stamp : ℕ) (db : Db) (k j : ℕ) (w : Worker) (a : Attempt)
    → IsConsistent db
    → db.workers.row k ≡ some w
    → (finalize_drained_workers stamp db).workers.row k ≢ some w
    → db.attempts.row j ≡ some a
    → a.worker_id ≡ k
    → (is_status w.status WorkerStatus.draining ≡ true)
      × (test
            (λ v. is_status v.status WorkerStatus.revoked)
            ((finalize_drained_workers stamp db).workers.row k)
          ≡ true)
      × (holds_slot a.state ≡ false)
unfolding finalize_drained_workers
retired_worker_idle stamp db k j w a h row changed arow mine =
    elim (Bool-cases (is_drained db k w)) [
      | inl drained ↦ (
        drained_status db k w drained,
        ground arith,
        drained_worker_idle stamp db k j w a h drained arow mine,
      )
      | inr kept ↦ absurd (changed (ground arith))
    ]

-- After the sweep of the maintenance jobs every job that is not over has time left in its window, and
-- the lease of every job that a worker holds has not lapsed.
pub expire_maintenance_jobs_clears :
    (stamp : ℕ) (db : Db) (k : ℕ) (j : Job)
    → (expire_maintenance_jobs stamp db).0.jobs.row k ≡ some j
    → (is_open_job j.state ≡ true → stamp < j.expires_at)
      × (is_held_job j.state ≡ true → passed j.lease_expires_at stamp ≡ false)
unfolding expire_maintenance_jobs
expire_maintenance_jobs_clears stamp db k j row = ((λ open_. ground arith), λ held. ground arith)
