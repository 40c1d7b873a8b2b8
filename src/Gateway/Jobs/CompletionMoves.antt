-- ===== src/Gateway/Jobs/CompletionMoves.antt =====
-- A completion moves its job along the machine (complete_worker_maintenance of
-- src/vgen/gateway/repository.py).
use vgen.Base.{true, inl, inr, refl, arith, ◌≡◌, ℕ, ◌&&◌, Option-cases, Bool-cases, ◌==◌}
use vgen.Gateway.Tx.{
  Ensures, Ensures-require, Ensures-if, Ensures-ok, maintenance_state_conflict, Ensures-raise,
  maintenance_lease_lost, maintenance_result_invalid,
}
use vgen.Gateway.Jobs.Machine.{JobsMoved-refl, JobsMoved-update_row, Moved, stay, move, JobStep}
use vgen.Gateway.Db.{Db, Job}
use vgen.Gateway.Jobs.Reports.{fenced_job, of_worker}
use vgen.Gateway.Jobs.{update_row, kind_index}
use vgen.Gateway.Jobs.Completion.{
  complete_worker_maintenance, JobReport, store_success, store_completion, complete_job,
  may_complete, authorizes, completed_job, is_completed, is_succeeded, same_stored, result_kind,
  is_valid_result,
}
use vgen.Gateway.Jobs.Authorizations.{Authority, record_maintenance_authorizations}
use vgen.Gateway.Installs.{same_flag}
use vgen.Gateway.Jobs.Moves.{JobsKept}
use vgen.Gateway.Jobs.Drivers.{complete_maintenance}

store_success-jobs :
    (auth : Authority) (r : JobReport) (j : Job) (stamp : ℕ) (db : Db)
    → (store_success auth r j stamp db).jobs ≡ db.jobs
unfolding store_success record_maintenance_authorizations
store_success-jobs auth r j stamp db = elim (Bool-cases (authorizes j.kind)) [
  | inl yes_ ↦ elim (Option-cases (auth.bound_identifiers j.spec)) [
    | inl e ↦ rw (yes_, e) refl
    | inr (ids, e) ↦ rw (yes_, e) refl
  ]
  | inr no_ ↦ rw no_ refl
]

pub store_completion-jobs :
    (auth : Authority) (r : JobReport) (j : Job) (stamp : ℕ) (db : Db)
    → (store_completion auth r j stamp db).jobs
      ≡ update_row r.job_id (completed_job r stamp) db.jobs
unfolding store_completion
store_completion-jobs auth r j stamp db = elim (Bool-cases r.succeeded) [
  | inl won ↦ rw won (store_success-jobs auth r j stamp _)
  | inr lost ↦ rw lost refl
]

pub complete-moved :
    (auth : Authority) (r : JobReport) (stamp : ℕ) (db : Db)
    → Ensures
        (JobsKept (complete_maintenance auth r) db)
        (complete_worker_maintenance auth r stamp db)
unfolding complete_worker_maintenance complete_job fenced_job
complete-moved auth r stamp db = elim (Option-cases (db.jobs.row r.job_id)) [
  | inl e ↦ rw e (Ensures-raise maintenance_lease_lost)
  | inr (j, e) ↦ elim (Bool-cases (of_worker r.worker_id r.fencing_token j)) [
    | inl mine ↦
        rw (e, mine)
          (Ensures-if (is_completed j.state) _ _
            (λ over.
              Ensures-require
                (same_flag (is_succeeded j.state) r.succeeded && same_stored j.result r.result)
                maintenance_state_conflict _ λ same. Ensures-ok j db (JobsMoved-refl _ db.jobs))
            λ going. Ensures-require (may_complete r stamp j) maintenance_lease_lost _ λ held.
              Ensures-require (kind_index (result_kind r.result) == kind_index j.kind)
                maintenance_result_invalid _
                λ kind.
                  Ensures-require (is_valid_result auth r j) maintenance_result_invalid _ λ valid.
                    Ensures-ok (completed_job r stamp j) (store_completion auth r j stamp db) (
                      rw (store_completion-jobs auth r j stamp db) (
                        JobsMoved-update_row _ r.job_id j (completed_job r stamp) db.jobs e
                          (completed j held))))
    | inr other ↦ rw (e, other) (Ensures-raise maintenance_lease_lost)
  ]
]
  where
    completed :
        (j : Job)
        → may_complete r stamp j ≡ true
        → Moved (complete_maintenance auth r) r.job_id j (completed_job r stamp j)
    completed j held = record {
      path = move (JobStep.completed (ground arith) r) stay;
      token = omega arith;
      settled = λ over. ground arith;
    }
