-- ===== src/Gateway/Leasing/Constraints.antt =====
-- The UNIQUE constraints on leases and tokens hold whenever `lease` of
-- src/vgen/gateway/repository.py writes.
use vgen.Table.{exists_key}
use vgen.Gateway.Db.{Db, Worker, Task, WorkerStatus}
use vgen.Gateway.Tx.{◌>>◌, Fault, Result, ok, raise, integrity_error, ◌>>=◌}
use vgen.Gateway.Leasing.{
  lease, lease_swept, assign_task, token_is_taken, reserved_attempt, worker_envelope, active_count,
  has_maintenance, next_task, found, require, attempt_state_conflict, Grant, rekey_required,
  worker_not_found, is_status, worker_draining, worker_offline,
}
use vgen.Gateway.Leasing.Grants.{swept}
use vgen.Gateway.Leasing.Order.{swept-IsConsistent}
use vgen.Gateway.Safety.{IsConsistent}
use vgen.Gateway.Safety.Leases.{selected_attempt}
use vgen.Base.{
  [], ◌∷◌, ◌||◌, ◌+◌, ◌≡◌, ◌≢◌, none, some, inl, inr, true, false, refl, arith, ℕ, Bool, Option,
  List, ap, test, is_none, not, Bool-cases, leb,
}

exists_key-false :
    {A : Type 0} (p : ℕ → A → Bool) (row : ℕ → Option A) (ks : List ℕ)
    → ((k : ℕ) → test (p k) (row k) ≡ false)
    → exists_key p row ks ≡ false
unfolding exists_key
exists_key-false p row [] h = refl
exists_key-false p row (k ∷ ks) h = rw (h k) (exists_key-false p row ks h)

abbrev is_integrity_error : Fault → Bool
is_integrity_error integrity_error = true
is_integrity_error _ = false

-- Whether a constraint was broken.
abbrev breaks : {A : Type 0} → Result A → Bool
breaks (ok a) = false
breaks (raise fault) = is_integrity_error fault

module _ {A B : Type 0} where
  breaks-found :
      (o : Option B) (fault : Fault) (k : B → Result A)
      → is_integrity_error fault ≡ false
      → ((b : B) → o ≡ some b → breaks (k b) ≡ false)
      → breaks (found o fault >>= k) ≡ false
  breaks-found none fault k e h = e
  breaks-found (some b) fault k e h = h b refl

breaks-require :
    {A : Type 0} (b : Bool) (fault : Fault) (m : Result A)
    → is_integrity_error fault ≡ false
    → breaks m ≡ false
    → breaks (require b fault >> m) ≡ false
breaks-require true fault m e h = h
breaks-require false fault m e h = e

-- A new token is greater than those of the worker's attempts.
pub token_is_free :
    (worker_id attempt_id : ℕ) (w : Worker) (db : Db)
    → IsConsistent db
    → db.workers.row worker_id ≡ some w
    → token_is_taken worker_id (w.fencing_counter + 1) attempt_id db ≡ false
unfolding token_is_taken
token_is_free worker_id attempt_id w db h row =
    exists_key-false _ db.attempts.row db.attempts.keys (λ k. ground (arith, h.tokens_drawn k))

assign_task-breaks :
    (worker_id task_id stamp ttl : ℕ) (w : Worker) (db : Db)
    → IsConsistent db
    → db.workers.row worker_id ≡ some w
    → breaks (assign_task worker_id w task_id stamp ttl db) ≡ false
unfolding assign_task
assign_task-breaks worker_id task_id stamp ttl w db h row =
    breaks-found (reserved_attempt task_id worker_id db) attempt_state_conflict _ refl λ p e.
      breaks-found (worker_envelope task_id worker_id db) rekey_required _ refl λ key f.
        let s = selected_attempt task_id worker_id p.0 p.1 db e in
        let unleased : is_none (db.leases.row p.0) ≡ true = ground (arith, h.leases_agree p.0, s) in
        rw (token_is_free worker_id p.0 w db h row, unleased) refl

lease_swept-breaks :
    (worker_id ttl stamp : ℕ) (db : Db)
    → IsConsistent db
    → breaks (lease_swept worker_id ttl stamp db) ≡ false
unfolding lease_swept
lease_swept-breaks worker_id ttl stamp db h =
    breaks-found (db.workers.row worker_id) worker_not_found _ refl λ w row.
      breaks-require (not (is_status w.status WorkerStatus.draining)) worker_draining _ refl (
        breaks-require (is_status w.status WorkerStatus.active) worker_offline _ refl
          (elim (Bool-cases
            (leb w.capacity (active_count worker_id db) || has_maintenance worker_id db)) [
              | inl full ↦ rw full refl
              | inr room ↦ rw room (answer w row (next_task worker_id stamp db))
            ]))
  where
    answer :
        (w : Worker)
        → db.workers.row worker_id ≡ some w
        → (o : Option (ℕ × Task))
        → breaks (elim o as (λ x. Result (Option Grant × Db)) [
          | none ↦ ok (none, db)
          | some (task_id, t) ↦ assign_task worker_id w task_id stamp ttl db
        ])
          ≡ false
    answer w row none = refl
    answer w row (some (task_id, t)) = assign_task-breaks worker_id task_id stamp ttl w db h row

-- From a consistent database, a request for work never fails on a UNIQUE constraint of the attempts
-- or the leases.
pub lease_breaks_no_constraint :
    (worker_id ttl stamp : ℕ) (db : Db)
    → IsConsistent db
    → lease worker_id ttl stamp db ≢ raise integrity_error
unfolding lease
lease_breaks_no_constraint worker_id ttl stamp db h e =
    let s : breaks (lease worker_id ttl stamp db) ≡ false =
      lease_swept-breaks worker_id ttl stamp (swept stamp db) (swept-IsConsistent stamp db h) in
    ground (arith, s, ap breaks e)
