-- ===== src/Gateway/Leasing/Progress.antt =====
-- A worker that may run a task is given it (`lease` of src/vgen/gateway/repository.py).
use vgen.Gateway.Db.{Db, Worker, Task, Attempt, KeyEnvelope, WorkerStatus}
use vgen.Gateway.Leasing.{
  Grant, lease, lease_swept, assign_task, next_task, reserved_attempt, worker_envelope,
  active_count, has_maintenance, Result, ok,
}
use vgen.Gateway.Leasing.Grants.{swept}
use vgen.Gateway.Leasing.Order.{swept-IsConsistent}
use vgen.Gateway.Leasing.Constraints.{token_is_free}
use vgen.Gateway.Safety.Leases.{selected_attempt}
use vgen.Gateway.Safety.{IsConsistent}
use vgen.Base.{◌||◌, ◌+◌, ◌<◌, ◌≡◌, some, true, false, refl, arith, ℕ, is_none, leb, Option}

-- A worker with room for the next task of its queue, for which it has an attempt and a key.
pub record Ready (worker_id stamp task_id attempt_id : ℕ) (db : Db) : Type 0 where
  pub worker : Worker
  pub task : Task
  pub attempt : Attempt
  pub key : ℕ × KeyEnvelope
  pub worker_row : db.workers.row worker_id ≡ some worker
  pub active : worker.status ≡ WorkerStatus.active
  pub room : active_count worker_id db < worker.capacity
  pub undisturbed : has_maintenance worker_id db ≡ false
  pub chosen : next_task worker_id stamp db ≡ some (task_id, task)
  pub reserved : reserved_attempt task_id worker_id db ≡ some (attempt_id, attempt)
  pub wrapped : worker_envelope task_id worker_id db ≡ some key

abbrev pub Served : ℕ → ℕ → ℕ → Result (Option Grant × Db) → Type 0
Served task_id attempt_id token m =
    (g : Grant) × (db' : Db) × (m ≡ ok (some g, db'))
    × (g.task_id ≡ task_id)
    × (g.attempt_id ≡ attempt_id)
    × (g.fencing_token ≡ token)

module _ (worker_id ttl stamp task_id attempt_id : ℕ) (db : Db) (h : IsConsistent db)
    (r : Ready worker_id stamp task_id attempt_id db) where
  Ready-unleased : is_none (db.leases.row attempt_id) ≡ true
  Ready-unleased = ground (
    arith,
    h.leases_agree attempt_id,
    selected_attempt task_id worker_id attempt_id r.attempt db r.reserved,
  )

  assign_task-Served :
      Served task_id attempt_id
        (r.worker.fencing_counter + 1)
        (assign_task worker_id r.worker task_id stamp ttl db)
  unfolding assign_task
  assign_task-Served =
      rw
        (
          r.reserved,
          r.wrapped,
          token_is_free worker_id attempt_id r.worker db h r.worker_row,
          Ready-unleased,
        )
        (_, _, refl, refl, refl, refl)

  lease_swept-Served :
      Served task_id attempt_id (r.worker.fencing_counter + 1) (lease_swept worker_id ttl stamp db)
  unfolding lease_swept
  lease_swept-Served =
      let open_ : (leb r.worker.capacity (active_count worker_id db)
            || has_maintenance worker_id db)
          ≡ false =
        ground (arith, r.room, r.undisturbed) in
      rw (r.worker_row, r.active, open_, r.chosen) assign_task-Served

-- From a database that is consistent, a request of an active worker that after the sweeps has room,
-- no maintenance job in its way, and a reserved attempt and a key for the next task of its queue, is
-- answered with that task and that attempt, under the next token of the worker.
pub lease_serves :
    (worker_id ttl stamp task_id attempt_id : ℕ) (db : Db)
    → IsConsistent db
    → (r : Ready worker_id stamp task_id attempt_id (swept stamp db))
    → Served task_id attempt_id (r.worker.fencing_counter + 1) (lease worker_id ttl stamp db)
unfolding lease
lease_serves worker_id ttl stamp task_id attempt_id db h r =
    lease_swept-Served worker_id ttl stamp task_id attempt_id (swept stamp db)
      (swept-IsConsistent stamp db h) r
