-- ===== src/Gateway/Rekey/Replacement.antt =====
-- Which worker a retry reserves (`prepare_retry` of src/vgen/gateway/repository.py).
use vgen.Gateway.Db.{Db, Worker, Task, WorkerStatus, Attempt}
use vgen.Gateway.Access.{Principal, require_task_consumer}
use vgen.Gateway.Rekey.{
  Reservation, is_replacement, used_slots, replacement, reserve_retry, prepare_retry, may_retry,
  store_retry, approved_rate, next_attempt_number, has_text, is_online, is_status, ok,
  expire_reservations, task_not_found, task_state_conflict, task_retry_content_unavailable,
  no_eligible_worker, rate_not_approved, token_is_taken, integrity_error, TaskState,
  greatest_number, AttemptState, retry_attempt, retried_task,
}
use vgen.Gateway.Safety.Retries.{replacement_sound, attempts_free}
use vgen.Base.{
  [], ◌∷◌, none, inl, inr, ◌⊎◌, ◌==◌, ◌≤◌, List, Option, Option-cases, Bool-cases, ==→eq, ==_refl,
  ◌&&◌, ◌+◌, ◌<◌, ◌≡◌, ◌≢◌, some, true, refl, arith, Bool, ℕ, not,
}
use vgen.Gateway.Tx.{Ensures, Ensures-found, Ensures-at, Ensures-bind, Ensures-require, Ensures-ok}
use vgen.Gateway.Safety.{IsConsistent}
use vgen.Gateway.Safety.Sweeps.{expire_reservations-IsConsistent}
use vgen.Table.Laws.{mentions}

-- What a retry that is answered found and left behind: `db` is the database after the sweep of the
-- reservations, `db'` the one that the retry leaves.
pub record Reserved (matches : Db → ℕ → Worker → Task → Bool) (task_id ttl stamp : ℕ) (db : Db)
    (res : Reservation) (db' : Db) : Type 0 where
  pub task : Task
  pub worker : Worker
  pub seen : ℕ
  pub task_row : db.tasks.row task_id ≡ some task
  pub retried :
      (task.state ≡ TaskState.failed)
      ⊎ ((task.state ≡ TaskState.rekey_required) ⊎ (task.state ≡ TaskState.expired))
  pub worker_row : db.workers.row res.worker_id ≡ some worker
  pub matching : matches db res.worker_id worker task ≡ true
  pub active : worker.status ≡ WorkerStatus.active
  pub last_seen : worker.last_seen_at ≡ some seen
  pub online : stamp < seen + 120000000
  pub replaced : task.assigned_worker_id ≢ some res.worker_id
  pub room : used_slots res.worker_id stamp db < worker.capacity
  pub attempt : Attempt
  pub attempt_row : db'.attempts.row res.attempt_id ≡ some attempt
  pub attempt_new : db.attempts.row res.attempt_id ≡ none
  pub reserved : attempt.state ≡ AttemptState.reserved
  pub attempt_task : attempt.task_id ≡ task_id
  pub attempt_worker : attempt.worker_id ≡ res.worker_id
  pub attempt_token : attempt.fencing_token ≡ res.fencing_token
  pub latest :
      (k : ℕ) (a : Attempt)
      → db.attempts.row k ≡ some a
      → a.task_id ≡ task_id
      → a.attempt_number < attempt.attempt_number
  pub token_greatest :
      (k : ℕ) (a : Attempt)
      → db.attempts.row k ≡ some a
      → a.worker_id ≡ res.worker_id
      → a.fencing_token < res.fencing_token
  pub others_kept : (k : ℕ) → k ≢ res.attempt_id → db'.attempts.row k ≡ db.attempts.row k
  pub assigned : Task
  pub assigned_row : db'.tasks.row task_id ≡ some assigned
  pub waiting : assigned.state ≡ TaskState.rekey_required
  pub assigned_worker : assigned.assigned_worker_id ≡ some res.worker_id
  pub until : assigned.reservation_expires_at ≡ some (stamp + ttl)
  pub answered_until : res.reservation_expires_at ≡ stamp + ttl

is_active_status :
    (s : WorkerStatus) → is_status s WorkerStatus.active ≡ true → s ≡ WorkerStatus.active
is_active_status WorkerStatus.active e = refl
is_active_status _ e = ground arith

retried_state :
    (s : TaskState)
    → may_retry s ≡ true
    → (s ≡ TaskState.failed) ⊎ ((s ≡ TaskState.rekey_required) ⊎ (s ≡ TaskState.expired))
retried_state TaskState.failed e = inl refl
retried_state TaskState.rekey_required e = inr (inl refl)
retried_state TaskState.expired e = inr (inr refl)
retried_state _ e = ground arith

seen_within :
    (stamp : ℕ) (o : Option ℕ)
    → is_online stamp o ≡ true
    → (seen : ℕ) × (o ≡ some seen) × (stamp < seen + 120000000)
seen_within stamp none e = ground arith
seen_within stamp (some seen) e = (seen, refl, ground arith)

module _ (t : Task) (stamp : ℕ) (db : Db) (k : ℕ) (w : Worker)
    (fits : is_replacement t stamp db k w ≡ true) where
  replacement-active : is_status w.status WorkerStatus.active ≡ true
  unfolding is_replacement
  replacement-active = ground arith

  replacement-online : is_online stamp w.last_seen_at ≡ true
  unfolding is_replacement
  replacement-online = ground arith

  replacement-room : used_slots k stamp db < w.capacity
  unfolding is_replacement
  replacement-room = ground arith

  replacement-other : t.assigned_worker_id ≢ some k
  unfolding is_replacement
  replacement-other e = ground arith

greatest_number-bounds :
    (task_id k : ℕ) (a : Attempt) (row : ℕ → Option Attempt) (ks : List ℕ)
    → mentions k ks ≡ true
    → row k ≡ some a
    → a.task_id ≡ task_id
    → a.attempt_number ≤ greatest_number task_id row ks
unfolding greatest_number
greatest_number-bounds task_id k a row [] m e same = ground arith
greatest_number-bounds task_id k a row (j ∷ ks) m e same = elim (Bool-cases (j == k)) [
  | inl here ↦ rw (==→eq j k here, e, same) (ground arith)
  | inr there ↦ elim (Option-cases (row j)) [
    | inl f ↦ rw f (greatest_number-bounds task_id k a row ks (ground arith) e same)
    | inr (b, f) ↦
        rw f (ground (arith, greatest_number-bounds task_id k a row ks (ground arith) e same))
  ]
]

reserve_retry-Reserved :
    (matches : Db → ℕ → Worker → Task → Bool) (task_id ttl stamp : ℕ) (t : Task) (db : Db)
    → IsConsistent db
    → db.tasks.row task_id ≡ some t
    → may_retry t.state ≡ true
    → Ensures (Reserved matches task_id ttl stamp db) (reserve_retry matches task_id ttl t stamp db)
unfolding reserve_retry store_retry next_attempt_number
reserve_retry-Reserved matches task_id ttl stamp t db h row retried =
    Ensures-found (replacement (λ k v. matches db k v t) t stamp db) no_eligible_worker _ λ x e.
      Ensures-found (approved_rate x.0 t.workspace_id db) rate_not_approved _ λ card r.
        Ensures-require (not (token_is_taken x.0 (x.1.fencing_counter + 1) db.fresh db))
          integrity_error _
          λ unused. Ensures-ok _ _ (
            let s = replacement_sound (λ k v. matches db k v t) t stamp db x e in
            let online =
              seen_within stamp x.1.last_seen_at (replacement-online t stamp db x.0 x.1 s.0.1) in
            record {
              task = t;
              worker = x.1;
              seen = online.0;
              task_row = row;
              retried = retried_state t.state retried;
              worker_row = s.0.0;
              matching = s.1;
              active = is_active_status x.1.status (replacement-active t stamp db x.0 x.1 s.0.1);
              last_seen = online.1;
              online = online.2;
              replaced = replacement-other t stamp db x.0 x.1 s.0.1;
              room = replacement-room t stamp db x.0 x.1 s.0.1;
              attempt =
                  retry_attempt task_id x.0 (x.1.fencing_counter + 1)
                    (next_attempt_number task_id db) stamp;
              attempt_row = rw (==_refl db.fresh) refl;
              attempt_new = attempts_free db h db.fresh (omega arith);
              reserved = refl;
              attempt_task = refl;
              attempt_worker = refl;
              attempt_token = refl;
              latest = λ k a there same. omega (
                arith,
                greatest_number-bounds task_id k a db.attempts.row db.attempts.keys
                    (ground (arith, h.attempts_table.listed k)) there same,
              );
              token_greatest = λ k a there same. ground (arith, h.tokens_drawn k, s.0.0);
              others_kept = λ k other. ground arith;
              assigned = retried_task x.0 stamp ttl t;
              assigned_row = rw (row, ==_refl task_id) refl;
              waiting = refl;
              assigned_worker = refl;
              until = refl;
              answered_until = refl;
            })

prepare_retry-Reserved :
    (matches : Db → ℕ → Worker → Task → Bool) (task_id : ℕ) (p : Principal) (ttl stamp : ℕ)
    (db : Db)
    → IsConsistent db
    → Ensures
        (Reserved matches task_id ttl stamp (expire_reservations stamp db))
        (prepare_retry matches task_id p ttl stamp db)
unfolding prepare_retry
prepare_retry-Reserved matches task_id p ttl stamp db h =
    let swept = expire_reservations stamp db in
    Ensures-found (swept.tasks.row task_id) task_not_found _ λ t row.
      Ensures-bind (require_task_consumer swept t p true) _ λ allowed a.
        Ensures-require (may_retry t.state) task_state_conflict _ λ retried.
          Ensures-require (has_text t.encrypted_payload && has_text t.reader_envelope)
            task_retry_content_unavailable _
            λ content.
              reserve_retry-Reserved matches task_id ttl stamp t swept
                (expire_reservations-IsConsistent stamp db h) row retried

-- From a consistent database, a retry that is answered reserves a worker that is active, was seen less
-- than 120 seconds ago, matches the task, is not the one that the task was assigned to, and had a free
-- slot after the sweep of the reservations. It adds one attempt, which is reserved for this task and
-- worker, has a greater number than every other attempt of the task and a greater token than every
-- other attempt of the worker, and leaves the other attempts as they were; the task, which was failed,
-- expired or waiting for a rekey, waits for a rekey by this worker until the reservation ends.
pub prepare_retry_lem :
    (matches : Db → ℕ → Worker → Task → Bool) (task_id : ℕ) (p : Principal) (ttl stamp : ℕ)
    (db db' : Db) (res : Reservation)
    → IsConsistent db
    → prepare_retry matches task_id p ttl stamp db ≡ ok (res, db')
    → Reserved matches task_id ttl stamp (expire_reservations stamp db) res db'
prepare_retry_lem matches task_id p ttl stamp db db' res h e =
    Ensures-at (prepare_retry matches task_id p ttl stamp db) e
      (prepare_retry-Reserved matches task_id p ttl stamp db h)
