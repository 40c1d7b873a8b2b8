-- ===== src/Gateway/Leasing/Grants.antt =====
-- What a granted lease is: the choice of the task, of the attempt and of the token in `lease` of
-- src/vgen/gateway/repository.py.
use vgen.Table.Select.{select_first_sound}
use vgen.Gateway.Db.{Db, Worker, Task, Attempt, KeyEnvelope, WorkerStatus}
use vgen.Gateway.Leasing.{
  Grant, lease, lease_swept, assign_task, store_lease, next_task, reserved_attempt, worker_envelope,
  is_reserved_for, attempt_before, active_count, has_maintenance, token_is_taken, expire_leases,
  is_status, ok, expire_reservations, Result, attempt_state_conflict, rekey_required,
  worker_not_found, integrity_error, worker_draining, worker_offline,
}
use vgen.Base.{
  ◌||◌, ◌+◌, ◌≡◌, none, some, true, false, refl, arith, ℕ, Option, ltb, leb, not, is_none,
}
use vgen.Gateway.Tx.{Ensures, Ensures-at, Ensures-found, Ensures-ok, Ensures-require, Ensures-if}

-- The database that a request for work sees.
abbrev pub swept : ℕ → Db → Db
swept stamp db = (expire_leases stamp (expire_reservations stamp db)).0

-- How a grant and the database behind it follow from the swept database.
pub record Granted (worker_id ttl stamp : ℕ) (db : Db) (g : Grant) (db' : Db) : Type 0 where
  pub worker : Worker
  pub task : Task
  pub attempt : Attempt
  pub key : KeyEnvelope
  pub worker_row : db.workers.row worker_id ≡ some worker
  pub active : is_status worker.status WorkerStatus.active ≡ true
  pub room : ltb (active_count worker_id db) worker.capacity ≡ true
  pub undisturbed : has_maintenance worker_id db ≡ false
  pub chosen : next_task worker_id stamp db ≡ some (g.task_id, task)
  pub attempt_row : db.attempts.row g.attempt_id ≡ some attempt
  pub reserved : is_reserved_for g.task_id worker_id attempt ≡ true
  pub token : g.fencing_token ≡ worker.fencing_counter + 1
  pub expiry : g.expires_at ≡ stamp + ttl
  pub stored : db' ≡ store_lease worker_id g.fencing_token g.attempt_id g.task_id stamp ttl key db

abbrev Answer : ℕ → ℕ → ℕ → Db → Option Grant → Db → Type 0
Answer worker_id ttl stamp db none db' = db' ≡ db
Answer worker_id ttl stamp db (some g) db' = Granted worker_id ttl stamp db g db'

module _ (worker_id ttl stamp : ℕ) (db : Db) (w : Worker) (row : db.workers.row worker_id ≡ some w)
    (active : is_status w.status WorkerStatus.active ≡ true)
    (room : (leb w.capacity (active_count worker_id db) || has_maintenance worker_id db)
      ≡ false) where
  assign_task-Answer :
      (task_id : ℕ) (t : Task)
      → next_task worker_id stamp db ≡ some (task_id, t)
      → Ensures (Answer worker_id ttl stamp db) (assign_task worker_id w task_id stamp ttl db)
  unfolding assign_task reserved_attempt
  assign_task-Answer task_id t e =
      Ensures-found (reserved_attempt task_id worker_id db) attempt_state_conflict _ λ p f.
        Ensures-found (worker_envelope task_id worker_id db) rekey_required _ λ key k.
          Ensures-require (not (token_is_taken worker_id (w.fencing_counter + 1) p.0 db))
            integrity_error _
            λ free. Ensures-require (is_none (db.leases.row p.0)) integrity_error _ λ unleased.
              Ensures-ok _ _ (
                let s = select_first_sound attempt_before _ db.attempts p.0 p.1 f in
                record {
                  worker = w;
                  task = t;
                  attempt = p.1;
                  key = key.1;
                  worker_row = row;
                  active = active;
                  room = ground arith;
                  undisturbed = ground arith;
                  chosen = e;
                  attempt_row = s.0;
                  reserved = s.1;
                  token = refl;
                  expiry = refl;
                  stored = refl;
                })

lease_swept-Answer :
    (worker_id ttl stamp : ℕ) (db : Db)
    → Ensures (Answer worker_id ttl stamp db) (lease_swept worker_id ttl stamp db)
unfolding lease_swept
lease_swept-Answer worker_id ttl stamp db =
    Ensures-found (db.workers.row worker_id) worker_not_found _ λ w row.
      Ensures-require (not (is_status w.status WorkerStatus.draining)) worker_draining _ λ staying.
        Ensures-require (is_status w.status WorkerStatus.active) worker_offline _ λ active.
          Ensures-if (leb w.capacity (active_count worker_id db) || has_maintenance worker_id db) _
            _ (λ full. Ensures-ok none db refl)
            λ room. answer w row active room (next_task worker_id stamp db) refl
  where
    answer :
        (w : Worker)
        → db.workers.row worker_id ≡ some w
        → is_status w.status WorkerStatus.active ≡ true
        → (leb w.capacity (active_count worker_id db) || has_maintenance worker_id db) ≡ false
        → (o : Option (ℕ × Task)) → next_task worker_id stamp db ≡ o
        → Ensures (Answer worker_id ttl stamp db) (elim o as (λ x. Result (Option Grant × Db)) [
          | none ↦ ok (none, db)
          | some (task_id, t) ↦ assign_task worker_id w task_id stamp ttl db
        ])
    answer w row active room none e = Ensures-ok none db refl
    answer w row active room (some (task_id, t)) e =
        assign_task-Answer worker_id ttl stamp db w row active room task_id t e

pub lease-Granted :
    (worker_id ttl stamp : ℕ) (db : Db) {g : Grant} {db' : Db}
    → lease worker_id ttl stamp db ≡ ok (some g, db')
    → Granted worker_id ttl stamp (swept stamp db) g db'
unfolding lease
lease-Granted worker_id ttl stamp db e =
    Ensures-at (lease worker_id ttl stamp db) e
      (lease_swept-Answer worker_id ttl stamp (swept stamp db))

-- An answer without work is given on the swept database, which it leaves as it is.
pub lease-none :
    (worker_id ttl stamp : ℕ) (db : Db) {db' : Db}
    → lease worker_id ttl stamp db ≡ ok (none, db')
    → db' ≡ swept stamp db
unfolding lease
lease-none worker_id ttl stamp db e =
    Ensures-at (lease worker_id ttl stamp db) e
      (lease_swept-Answer worker_id ttl stamp (swept stamp db))
