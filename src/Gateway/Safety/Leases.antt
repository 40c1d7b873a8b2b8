-- ===== src/Gateway/Safety/Leases.antt =====
-- `lease` keeps the database consistent, and is never refused by a UNIQUE constraint.
use vgen.Table.Laws.{IsTable-kept, IsTable-insert}
use vgen.Table.Select.{select_first_sound}
use vgen.Gateway.Db.{Db, Attempt, Task, Worker, KeyEnvelope, WorkerStatus}
use vgen.Gateway.Leasing.{
  store_lease, assign_task, lease_swept, lease, reserved_attempt, next_task, worker_envelope,
  is_runnable, is_reserved_for, attempt_before, Grant, active_count, has_maintenance,
  token_is_taken,
}
use vgen.Gateway.Safety.{IsConsistent, AttemptState}
use vgen.Base.{eq_null, ◌+◌, ◌≡◌, none, some, true, refl, arith, ℕ, Option, ◌||◌, is_none, not, leb}
use vgen.Gateway.Tasks.{is_queued, task_before}
use vgen.Gateway.Tx.{
  Ensures, Ensures-found, attempt_state_conflict, rekey_required, Ensures-require, integrity_error,
  Result, ok, worker_not_found, worker_draining, worker_offline, Ensures-if, Ensures-ok,
}
use vgen.Gateway.Safety.Sweeps.{expire_leases-IsConsistent, expire_reservations-IsConsistent}
use vgen.Gateway.Sweep.{is_status}

module _ (worker_id attempt_id task_id stamp ttl : ℕ) (w : Worker) (a : Attempt) (t : Task)
    (key : KeyEnvelope) (db : Db) (h : IsConsistent db)
    (worker_row : db.workers.row worker_id ≡ some w) (task_row : db.tasks.row task_id ≡ some t)
    (queued : is_queued t ≡ true) (assigned : eq_null t.assigned_worker_id worker_id ≡ true)
    (attempt_row : db.attempts.row attempt_id ≡ some a) (same_task : a.task_id ≡ task_id)
    (same_worker : a.worker_id ≡ worker_id) (reserved : a.state ≡ AttemptState.reserved) where
  abbrev leased_db : Db
  leased_db = store_lease worker_id (w.fencing_counter + 1) attempt_id task_id stamp ttl key db

  no_lease : db.leases.row attempt_id ≡ none
  no_lease = ground (arith, h.leases_agree attempt_id)

  store_lease-IsConsistent : IsConsistent leased_db
  unfolding store_lease
  store_lease-IsConsistent = record {
    leases_table = IsTable-insert attempt_id _ db.leases no_lease h.leases_table;
    attempts_table = IsTable-kept h.attempts_table refl (λ k. ground arith);
    tasks_table = IsTable-kept h.tasks_table refl (λ k. ground arith);
    tasks_agree = λ k. ground (arith, h.tasks_agree k);
    leases_agree = λ k. ground (arith, h.leases_agree k);
    tokens_drawn = λ k. ground (arith, h.tokens_drawn k);
    leases_fenced = λ k. ground (arith, h.leases_fenced k);
    live_unique = λ j k. ground (arith, h.live_unique j k, h.tasks_agree j, h.tasks_agree k);
    not_started = λ k. ground (arith, h.not_started k);
    workers_agree = λ k. ground (arith, h.workers_agree k, h.tasks_agree k);
    attempts_drawn = λ k. ground (arith, h.attempts_drawn k);
    tasks_drawn = λ k. ground (arith, h.tasks_drawn k);
    leases_drawn = λ k. ground (arith, h.leases_drawn k, h.attempts_drawn k);
    tokens_unique = λ j k. ground (arith, h.tokens_unique j k, h.tokens_drawn j, h.tokens_drawn k);
  }

abbrev pub Kept : {A : Type 0} → A → Db → Type 0
Kept a db = IsConsistent db

-- The facts that the selections of `lease` give about the rows.
pub selected_attempt :
    (task_id worker_id k : ℕ) (a : Attempt) (db : Db)
    → reserved_attempt task_id worker_id db ≡ some (k, a)
    → (db.attempts.row k ≡ some a)
      × (a.task_id ≡ task_id)
      × (a.worker_id ≡ worker_id)
      × (a.state ≡ AttemptState.reserved)
unfolding reserved_attempt
selected_attempt task_id worker_id k a db e =
    let s : (db.attempts.row k ≡ some a) × (is_reserved_for task_id worker_id a ≡ true) =
      select_first_sound attempt_before _ db.attempts k a e in
    (s.0, ground (arith, s.1), ground (arith, s.1), ground (arith, s.1))

pub selected_task :
    (worker_id stamp k : ℕ) (t : Task) (db : Db)
    → next_task worker_id stamp db ≡ some (k, t)
    → (db.tasks.row k ≡ some t) × (is_runnable worker_id stamp t ≡ true)
unfolding next_task
selected_task worker_id stamp k t db e = select_first_sound task_before _ db.tasks k t e

assign_task-IsConsistent :
    (worker_id task_id stamp ttl : ℕ) (w : Worker) (t : Task) (db : Db)
    → IsConsistent db
    → db.workers.row worker_id ≡ some w
    → db.tasks.row task_id ≡ some t
    → is_queued t ≡ true
    → eq_null t.assigned_worker_id worker_id ≡ true
    → Ensures Kept (assign_task worker_id w task_id stamp ttl db)
unfolding assign_task
assign_task-IsConsistent worker_id task_id stamp ttl w t db h rw_ rt q assigned =
    Ensures-found (reserved_attempt task_id worker_id db) attempt_state_conflict _ λ p e.
      Ensures-found (worker_envelope task_id worker_id db) rekey_required _ λ key f.
        Ensures-require (not (token_is_taken worker_id (w.fencing_counter + 1) p.0 db))
          integrity_error _
          λ free. Ensures-require (is_none (db.leases.row p.0)) integrity_error _ λ unleased.
            Ensures-ok _ _ (
              let s = selected_attempt task_id worker_id p.0 p.1 db e in
              store_lease-IsConsistent worker_id p.0 task_id stamp ttl w p.1 t key.1 db h rw_ rt q
                assigned s.0 s.1 s.2 s.3)

lease_swept-IsConsistent :
    (worker_id ttl stamp : ℕ) (db : Db)
    → IsConsistent db
    → Ensures Kept (lease_swept worker_id ttl stamp db)
unfolding lease_swept
lease_swept-IsConsistent worker_id ttl stamp db h =
    Ensures-found (db.workers.row worker_id) worker_not_found _ λ w rw_.
      Ensures-require (not (is_status w.status WorkerStatus.draining)) worker_draining _ λ active.
        Ensures-require (is_status w.status WorkerStatus.active) worker_offline _ λ online.
          Ensures-if (leb w.capacity (active_count worker_id db) || has_maintenance worker_id db) _
            _ (λ full. Ensures-ok none db h) λ room. serve w rw_ (next_task worker_id stamp db) refl
  where
    serve :
        (w : Worker)
        → db.workers.row worker_id ≡ some w
        → (o : Option (ℕ × Task)) → next_task worker_id stamp db ≡ o
        → Ensures Kept (elim o as (λ x. Result (Option Grant × Db)) [
          | none ↦ ok (none, db)
          | some (task_id, t) ↦ assign_task worker_id w task_id stamp ttl db
        ])
    serve w r none e = Ensures-ok none db h
    serve w r (some (task_id, t)) e =
        let s = selected_task worker_id stamp task_id t db e in
        assign_task-IsConsistent worker_id task_id stamp ttl w t db h r s.0 (ground (arith, s.1))
          (ground (arith, s.1))

-- A lease that is granted, and the answer that there is no work, leave the database consistent.
pub lease-IsConsistent :
    (worker_id ttl stamp : ℕ) (db : Db)
    → IsConsistent db
    → Ensures Kept (lease worker_id ttl stamp db)
unfolding lease
lease-IsConsistent worker_id ttl stamp db h =
    lease_swept-IsConsistent worker_id ttl stamp _
      (expire_leases-IsConsistent stamp _ (expire_reservations-IsConsistent stamp db h))
