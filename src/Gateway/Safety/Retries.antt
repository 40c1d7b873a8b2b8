-- ===== src/Gateway/Safety/Retries.antt =====
-- A retry keeps the database consistent: `prepare_retry` of src/vgen/gateway/repository.py draws a
-- new attempt and a new token for the worker that it selects.
use vgen.Base.{◌≡◌, some, inl, inr, true, arith, ℕ, Bool, ◌&&◌, none, Option-cases, ◌+◌, not, ◌≤◌}
use vgen.Gateway.Db.{Db, Worker, Task}
use vgen.Gateway.Rekey.{
  replacement, is_replacement, worker_before, reserve_retry, prepare_retry, may_retry, has_text,
  approved_rate, next_attempt_number,
}
use vgen.Gateway.Safety.Sweeps.{expire_reservations-IsConsistent}
use vgen.Gateway.Safety.{IsConsistent}
use vgen.Gateway.Access.{Principal, require_task_consumer}
use vgen.Gateway.Tx.{
  Ensures, Ensures-found, no_eligible_worker, task_not_found, rate_not_approved, Ensures-bind,
  Ensures-require, integrity_error, task_state_conflict, Ensures-ok, task_retry_content_unavailable,
}
use vgen.Gateway.Safety.Leases.{Kept}
use vgen.Gateway.Sweep.{expire_reservations}
use vgen.Gateway.Safety.Consumers.{store_retry-IsConsistent}
use vgen.Gateway.Leasing.{token_is_taken}
use vgen.Gateway.Rekey.Selection.{first_match_sound}

-- The replacement is a row of the workers that passes the test and matches.
pub replacement_sound :
    (matches : ℕ → Worker → Bool) (t : Task) (stamp : ℕ) (db : Db) (x : ℕ × Worker)
    → replacement matches t stamp db ≡ some x
    → ((db.workers.row x.0 ≡ some x.1) × (is_replacement t stamp db x.0 x.1 ≡ true))
      × (matches x.0 x.1 ≡ true)
unfolding replacement
replacement_sound matches t stamp db x e =
    first_match_sound matches worker_before (is_replacement t stamp db) db.workers x e

-- An identifier that was not drawn yet names no row.
module _ (db : Db) (h : IsConsistent db) (n : ℕ) (undrawn : db.fresh ≤ n) where
  pub attempts_free : db.attempts.row n ≡ none
  attempts_free = elim (Option-cases (db.attempts.row n)) [
    | inl e ↦ e
    | inr (a, e) ↦ ground (arith, h.attempts_drawn n)
  ]

  pub leases_free : db.leases.row n ≡ none
  leases_free = elim (Option-cases (db.leases.row n)) [
    | inl e ↦ e
    | inr (l, e) ↦ ground (arith, h.leases_drawn n)
  ]

  pub tasks_free : db.tasks.row n ≡ none
  tasks_free = elim (Option-cases (db.tasks.row n)) [
    | inl e ↦ e
    | inr (t, e) ↦ ground (arith, h.tasks_drawn n)
  ]

module _ (matches : Db → ℕ → Worker → Task → Bool) (task_id ttl stamp : ℕ) (t : Task) (db : Db)
    (h : IsConsistent db) (row : db.tasks.row task_id ≡ some t)
    (retried : may_retry t.state ≡ true) where
  reserve_retry-IsConsistent : Ensures Kept (reserve_retry matches task_id ttl t stamp db)
  unfolding reserve_retry
  reserve_retry-IsConsistent =
      Ensures-found (replacement (λ k v. matches db k v t) t stamp db) no_eligible_worker _ λ x e.
        Ensures-found (approved_rate x.0 t.workspace_id db) rate_not_approved _ λ card r.
          Ensures-require (not (token_is_taken x.0 (x.1.fencing_counter + 1) db.fresh db))
            integrity_error _
            λ unused. Ensures-ok _ _ (
              store_retry-IsConsistent task_id x.0 (next_attempt_number task_id db) stamp ttl x.1 t
                db h row retried (replacement_sound (λ k v. matches db k v t) t stamp db x e).0.0
                (attempts_free db h db.fresh (omega arith))
                (leases_free db h db.fresh (omega arith)))

pub prepare_retry-IsConsistent :
    (matches : Db → ℕ → Worker → Task → Bool) (task_id : ℕ) (p : Principal) (ttl stamp : ℕ)
    (db : Db)
    → IsConsistent db
    → Ensures Kept (prepare_retry matches task_id p ttl stamp db)
unfolding prepare_retry
prepare_retry-IsConsistent matches task_id p ttl stamp db h =
    let swept = expire_reservations stamp db in
    Ensures-found (swept.tasks.row task_id) task_not_found _ λ t row.
      Ensures-bind (require_task_consumer swept t p true) _ λ allowed a.
        Ensures-require (may_retry t.state) task_state_conflict _ λ retried.
          Ensures-require (has_text t.encrypted_payload && has_text t.reader_envelope)
            task_retry_content_unavailable _
            λ content.
              reserve_retry-IsConsistent matches task_id ttl stamp t swept
                (expire_reservations-IsConsistent stamp db h) row retried
