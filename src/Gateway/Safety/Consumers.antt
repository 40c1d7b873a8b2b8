-- ===== src/Gateway/Safety/Consumers.antt =====
-- What the consumer of a task does keeps the database consistent: `commit_task`, `cancel_task`,
-- `prepare_retry` and `commit_rekey`.
use vgen.Table.Laws.{IsTable-kept, IsTable-insert}
use vgen.Gateway.Db.{Db, Task, Worker}
use vgen.Gateway.Tasks.{
  CommitRequest, store_commit, commit_task, store_cancel, cancel_task, is_final, check_reservation,
  is_pending_input,
}
use vgen.Gateway.Safety.{IsConsistent, task_in, TaskState}
use vgen.Base.{[], ◌∷◌, ◌==◌, ◌≡◌, some, true, false, refl, arith, ℕ, ◌&&◌, ◌+◌, none, eq_null, not}
use vgen.Gateway.Tx.{
  Ensures, Ensures-found, task_not_found, Ensures-bind, Ensures-require, Ensures-if,
  task_state_conflict, Ensures-ok, Ensures-raise, reservation_expired, input_artifact_not_uploaded,
  integrity_error,
}
use vgen.Gateway.Access.{Principal, require_task_consumer}
use vgen.Gateway.Safety.Leases.{Kept}
use vgen.Table.{count_where}
use vgen.Gateway.Rekey.{RekeyRequest, commit_rekey, may_retry, store_rekey, store_retry}

module _ (r : CommitRequest) (t : Task) (worker_id stamp : ℕ) (db : Db) (h : IsConsistent db)
    (row : db.tasks.row r.task_id ≡ some t)
    (prepared : task_in t.state (TaskState.prepared ∷ []) ≡ true) where
  store_commit-IsConsistent : IsConsistent (store_commit r t worker_id stamp db)
  unfolding store_commit
  store_commit-IsConsistent = record {
    leases_table = h.leases_table;
    attempts_table = h.attempts_table;
    tasks_table = IsTable-kept h.tasks_table refl (λ k. ground arith);
    tasks_agree = λ k. ground (arith, h.tasks_agree k);
    leases_agree = h.leases_agree;
    tokens_drawn = h.tokens_drawn;
    leases_fenced = h.leases_fenced;
    live_unique = h.live_unique;
    not_started = h.not_started;
    workers_agree = λ k. ground (arith, h.workers_agree k, h.tasks_agree k);
    attempts_drawn = λ k. ground (arith, h.attempts_drawn k);
    tasks_drawn = λ k. ground (arith, h.tasks_drawn k);
    leases_drawn = λ k. ground (arith, h.leases_drawn k);
    tokens_unique = h.tokens_unique;
  }

pub commit_task-IsConsistent :
    (r : CommitRequest) (stamp : ℕ) (db : Db)
    → IsConsistent db
    → Ensures Kept (commit_task r stamp db)
unfolding commit_task
commit_task-IsConsistent r stamp db h =
    Ensures-found (db.tasks.row r.task_id) task_not_found _ λ t row.
      Ensures-bind (require_task_consumer db t r.principal false) _ λ allowed a.
        Ensures-require (task_in t.state (TaskState.prepared ∷ [])) task_state_conflict _
          λ prepared. Ensures-bind (check_reservation t.reservation_expires_at stamp) _ λ lapsed e.
            Ensures-if lapsed _ _ (λ late. Ensures-raise reservation_expired)
              λ timely.
                Ensures-require (count_where (is_pending_input r.task_id) db.artifacts == 0)
                  input_artifact_not_uploaded _
                  λ uploaded. Ensures-found t.assigned_worker_id integrity_error _ λ worker_id w.
                    Ensures-ok _ _ (store_commit-IsConsistent r t worker_id stamp db h row prepared)

module _ (task_id stamp : ℕ) (db : Db) (h : IsConsistent db) where
  store_cancel-IsConsistent : IsConsistent (store_cancel task_id stamp db)
  unfolding store_cancel
  store_cancel-IsConsistent = record {
    leases_table = IsTable-kept h.leases_table refl (λ k. ground arith);
    attempts_table = IsTable-kept h.attempts_table refl (λ k. ground arith);
    tasks_table = IsTable-kept h.tasks_table refl (λ k. ground arith);
    tasks_agree = λ k. ground (arith, h.tasks_agree k);
    leases_agree = λ k. ground (arith, h.leases_agree k, h.not_started k);
    tokens_drawn = λ k. ground (arith, h.tokens_drawn k);
    leases_fenced = λ k. ground (arith, h.leases_fenced k, h.not_started k);
    live_unique = λ j k. ground (arith, h.live_unique j k);
    not_started = λ k. ground (arith, h.not_started k);
    workers_agree = λ k. ground (arith, h.workers_agree k, h.tasks_agree k);
    attempts_drawn = λ k. ground (arith, h.attempts_drawn k);
    tasks_drawn = λ k. ground (arith, h.tasks_drawn k);
    leases_drawn = λ k. ground (arith, h.leases_drawn k);
    tokens_unique = λ j k. ground (arith, h.tokens_unique j k);
  }

pub cancel_task-IsConsistent :
    (task_id : ℕ) (p : Principal) (stamp : ℕ) (db : Db)
    → IsConsistent db
    → Ensures Kept (cancel_task task_id p stamp db)
unfolding cancel_task
cancel_task-IsConsistent task_id p stamp db h =
    Ensures-found (db.tasks.row task_id) task_not_found _ λ t row.
      Ensures-bind (require_task_consumer db t p true) _ λ allowed a.
        Ensures-if (is_final t.state) _ _ (λ over. Ensures-ok t.state db h)
          λ going. Ensures-ok TaskState.cancelled _ (store_cancel-IsConsistent task_id stamp db h)

module _ (r : RekeyRequest) (t : Task) (stamp : ℕ) (db : Db) (h : IsConsistent db)
    (row : db.tasks.row r.task_id ≡ some t)
    (waiting : task_in t.state (TaskState.rekey_required ∷ []) ≡ true) where
  store_rekey-IsConsistent : IsConsistent (store_rekey r t stamp db)
  unfolding store_rekey
  store_rekey-IsConsistent = record {
    leases_table = h.leases_table;
    attempts_table = h.attempts_table;
    tasks_table = IsTable-kept h.tasks_table refl (λ k. ground arith);
    tasks_agree = λ k. ground (arith, h.tasks_agree k);
    leases_agree = h.leases_agree;
    tokens_drawn = h.tokens_drawn;
    leases_fenced = h.leases_fenced;
    live_unique = h.live_unique;
    not_started = h.not_started;
    workers_agree = λ k. ground (arith, h.workers_agree k, h.tasks_agree k);
    attempts_drawn = λ k. ground (arith, h.attempts_drawn k);
    tasks_drawn = λ k. ground (arith, h.tasks_drawn k);
    leases_drawn = λ k. ground (arith, h.leases_drawn k);
    tokens_unique = h.tokens_unique;
  }

pub commit_rekey-IsConsistent :
    (r : RekeyRequest) (stamp : ℕ) (db : Db)
    → IsConsistent db
    → Ensures Kept (commit_rekey r stamp db)
unfolding commit_rekey
commit_rekey-IsConsistent r stamp db h =
    Ensures-found (db.tasks.row r.task_id) task_not_found _ λ t row.
      Ensures-bind (require_task_consumer db t r.principal false) _ λ allowed a.
        Ensures-require
          (task_in t.state (TaskState.rekey_required ∷ [])
            && eq_null t.assigned_worker_id r.replacement_worker_id)
          task_state_conflict _
          λ matching. Ensures-bind (check_reservation t.reservation_expires_at stamp) _ λ lapsed e.
            Ensures-require (not lapsed) reservation_expired _
              λ timely. Ensures-ok tt _ (store_rekey-IsConsistent r t stamp db h row (ground arith))

module _ (task_id worker_id number stamp ttl : ℕ) (w : Worker) (t : Task) (db : Db)
    (h : IsConsistent db) (task_row : db.tasks.row task_id ≡ some t)
    (retried : may_retry t.state ≡ true) (worker_row : db.workers.row worker_id ≡ some w)
    (free : db.attempts.row db.fresh ≡ none) (unleased : db.leases.row db.fresh ≡ none) where
  pub store_retry-IsConsistent :
      IsConsistent (store_retry task_id worker_id (w.fencing_counter + 1) number stamp ttl db)
  unfolding store_retry
  store_retry-IsConsistent = record {
    leases_table = h.leases_table;
    attempts_table = IsTable-insert db.fresh _ db.attempts free h.attempts_table;
    tasks_table = IsTable-kept h.tasks_table refl (λ k. ground arith);
    tasks_agree = λ k. ground (arith, h.tasks_agree k);
    leases_agree = λ k. ground (arith, h.leases_agree k, unleased);
    tokens_drawn = λ k. ground (arith, h.tokens_drawn k);
    leases_fenced = λ k. ground (arith, h.leases_fenced k, unleased);
    live_unique = λ j k. ground (arith, h.live_unique j k);
    not_started = λ k. ground (arith, h.not_started k);
    workers_agree = λ k. ground (arith, h.workers_agree k, h.tasks_agree k);
    attempts_drawn = λ k. ground (arith, h.attempts_drawn k);
    tasks_drawn = λ k. ground (arith, h.tasks_drawn k);
    leases_drawn = λ k. ground (arith, h.leases_drawn k);
    tokens_unique = λ j k. ground (arith, h.tokens_unique j k, h.tokens_drawn j, h.tokens_drawn k);
  }
