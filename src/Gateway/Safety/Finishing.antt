-- ===== src/Gateway/Safety/Finishing.antt =====
-- `finish_attempt` keeps the database consistent.
use vgen.Table.Laws.{IsTable-kept}
use vgen.Gateway.Db.{Db, Attempt}
use vgen.Gateway.Heartbeat.{Execution, execution, is_cancelled}
use vgen.Gateway.Finish.{
  Report, Verdict, Ending, ending, finish_live, finish_again, finish_attempt, store_finish,
  record_usage, retire_worker, is_over, is_draining, says_cancelled, acknowledge, check_report,
  replay, replay_hash, with_task, resume, finish_with,
}
use vgen.Gateway.Outputs.{Published, publish_outputs, publish_artifact, validate_outputs}
use vgen.Gateway.Safety.{IsConsistent, is_live, attempt_in, AttemptState}
use vgen.Gateway.Safety.Reports.{Joined, execution-Joined}
use vgen.Base.{
  [], ◌∷◌, ◌==◌, ◌&&◌, ◌≡◌, true, false, refl, arith, ℕ, test, ◌||◌, inl, inr, if◌then◌else◌, List,
  Bool-cases, String, subst, Option-cases, not, none, some, Option,
}
use vgen.Gateway.Safety.Sweeps.{IsConsistent-same, finalize_drained_workers-IsConsistent}
use vgen.Gateway.Tx.{
  ok, Ensures, Ensures-require, usage_report_invalid, Ensures-bind, Ensures-ok, Ensures-mono,
  Ensures-if, Ensures-raise, lease_lost,
}
use vgen.Gateway.Safety.Leases.{Kept}
use vgen.Gateway.Receipts.{Finished, is_finished, decode_finished_attempt_receipt, fenced_attempt}

module _ (r : Report) (e : Ending) (task_id stamp : ℕ) (db : Db) (h : IsConsistent db)
    (ended : is_live e.attempt_state ≡ false)
    (unreserved : attempt_in e.attempt_state (AttemptState.reserved ∷ []) ≡ false)
    (mine : test (λ a. is_live a.state && a.task_id == task_id) (db.attempts.row r.attempt_id)
      ≡ true) where
  store_finish-IsConsistent : IsConsistent (store_finish r e task_id stamp db)
  unfolding store_finish
  store_finish-IsConsistent = record {
    leases_table = IsTable-kept h.leases_table refl (λ k. ground arith);
    attempts_table = IsTable-kept h.attempts_table refl (λ k. ground arith);
    tasks_table = IsTable-kept h.tasks_table (ground arith) (λ k. ground arith);
    tasks_agree = λ k. ground (arith, h.tasks_agree k, h.live_unique k r.attempt_id);
    leases_agree = λ k. ground (arith, h.leases_agree k);
    tokens_drawn = λ k. ground (arith, h.tokens_drawn k);
    leases_fenced = λ k. ground (arith, h.leases_fenced k);
    live_unique = λ j k. ground (arith, h.live_unique j k);
    not_started = λ k. ground (arith, h.not_started k);
    workers_agree = λ k. ground (arith, h.workers_agree k, h.tasks_agree k);
    attempts_drawn = λ k. ground (arith, h.attempts_drawn k);
    tasks_drawn = λ k. ground (arith, h.tasks_drawn k);
    leases_drawn = λ k. ground (arith, h.leases_drawn k);
    tokens_unique = λ j k. ground (arith, h.tokens_unique j k);
  }

pub publish_step :
    (task_id attempt_id stamp k : ℕ) (metadata : List (String × String)) (rest : Published)
    (db : Db) {db' : Db}
    → publish_outputs task_id attempt_id stamp ((k, metadata) ∷ rest) db ≡ ok db'
    → publish_outputs task_id attempt_id stamp rest
        (publish_artifact task_id attempt_id stamp k metadata db)
      ≡ ok db'
unfolding publish_outputs
publish_step task_id attempt_id stamp k metadata rest db e =
    elim (Option-cases (db.artifacts.row k)) [
      | inl gone ↦ ground arith
      | inr (a, row) ↦ ground arith
    ]

-- Publishing artifacts, recording usage and retiring the worker write other tables.
publish_outputs-IsConsistent :
    (task_id attempt_id stamp : ℕ) (ps : Published) (db : Db) {db' : Db}
    → IsConsistent db
    → publish_outputs task_id attempt_id stamp ps db ≡ ok db'
    → IsConsistent db'
unfolding publish_outputs
publish_outputs-IsConsistent task_id attempt_id stamp [] db h e =
    subst IsConsistent (ground arith) h
publish_outputs-IsConsistent task_id attempt_id stamp ((k, metadata) ∷ rest) db {db'} h e =
    publish_outputs-IsConsistent task_id attempt_id stamp rest _
      (IsConsistent-same h refl refl refl refl refl)
      (publish_step task_id attempt_id stamp k metadata rest db e)

record_usage-IsConsistent :
    (r : Report) (v : Verdict) (e : Ending) (x : Execution) (stamp : ℕ) (db : Db)
    → IsConsistent db
    → IsConsistent (record_usage r v e x stamp db)
unfolding record_usage
record_usage-IsConsistent r v e x stamp db h =
    IsConsistent-same h (ground arith) (ground arith) (ground arith) (ground arith) (ground arith)

retire_worker-IsConsistent :
    (worker_id stamp : ℕ) (db : Db)
    → IsConsistent db
    → IsConsistent (retire_worker worker_id stamp db)
unfolding retire_worker
retire_worker-IsConsistent worker_id stamp db h =
    elim (Bool-cases (test is_draining (db.workers.row worker_id))) [
      | inl draining ↦ rw draining (finalize_drained_workers-IsConsistent stamp db h)
      | inr staying ↦ rw staying h
    ]

live_attempt :
    (stamp : ℕ) (x : Execution) (k worker_id token : ℕ) (db : Db)
    → Joined k worker_id token db x
    → is_over stamp x ≡ false
    → test (λ a. is_live a.state && a.task_id == x.attempt.task_id) (db.attempts.row k) ≡ true
live_attempt stamp x k worker_id token db j o = ground (arith, j.attempt_row)

finish_live-IsConsistent :
    (r : Report) (v : Verdict) (x : Execution) (stamp : ℕ) (db : Db)
    → IsConsistent db
    → test (λ a. is_live a.state && a.task_id == x.attempt.task_id) (db.attempts.row r.attempt_id)
      ≡ true
    → Ensures Kept (finish_live r v x stamp db)
unfolding finish_live
finish_live-IsConsistent r v x stamp db h live =
    let e = ending r v x.task in
    Ensures-require (e.cancellation || not (says_cancelled v.failure_code)) usage_report_invalid _
      λ said.
        Ensures-bind
          (validate_outputs x.attempt.task_id r.attempt_id db
            (if e.cancellation then [] else r.outputs))
          _
          λ outputs valid.
            Ensures-bind
              (publish_outputs x.attempt.task_id r.attempt_id stamp outputs
                (store_finish r e x.attempt.task_id stamp db))
              _
              λ published done. Ensures-ok _ _ (
                retire_worker-IsConsistent r.worker_id stamp _ (
                  record_usage-IsConsistent r v e x stamp published (
                    publish_outputs-IsConsistent x.attempt.task_id r.attempt_id stamp outputs _
                      (store_finish-IsConsistent r e x.attempt.task_id stamp db h (ground arith)
                        (ground arith) live)
                      done)))

-- What a finished attempt is answered without a live lease changes nothing.
pub finish_again-unchanged :
    (r : Report) (v : Verdict) (db : Db) → Ensures (λ f after. after ≡ db) (finish_again r v db)
unfolding finish_again
finish_again-unchanged r v db =
    answer
      (with_task db (fenced_attempt r.worker_id r.fencing_token (db.attempts.row r.attempt_id)))
  where
    acknowledged : (a : Attempt) → Ensures (λ f after. after ≡ db) (acknowledge r v a db)
    acknowledged a =
        Ensures-if
          (attempt_in a.state (AttemptState.cancelled ∷ [])
            && test is_cancelled (db.tasks.row a.task_id)
            && says_cancelled v.failure_code)
          _ _ (λ y. Ensures-ok _ db refl) (λ n. Ensures-raise lease_lost)

    replayed :
        (a : Attempt) (o : Option Finished) → Ensures (λ f after. after ≡ db) (replay r v a db o)
    replayed a none = acknowledged a
    replayed a (some f) = Ensures-ok f db refl

    hashed :
        (a : Attempt) (o : Option String) → Ensures (λ f after. after ≡ db) (replay_hash r v a o db)
    hashed a none = acknowledged a
    hashed a (some hash) =
        Ensures-if (is_finished a.state) _ _
          (λ over.
            Ensures-bind (decode_finished_attempt_receipt a r.attempt_id hash) _
              λ f e. replayed a f)
          (λ n. acknowledged a)

    answer : (o : Option Attempt) → Ensures (λ f after. after ≡ db) (resume r v db o)
    answer none = Ensures-raise lease_lost
    answer (some a) = hashed a r.finish_semantic_hash

finish_again-IsConsistent :
    (r : Report) (v : Verdict) (db : Db) → IsConsistent db → Ensures Kept (finish_again r v db)
finish_again-IsConsistent r v db h =
    Ensures-mono (λ f after e. rw e h) (finish_again r v db) (finish_again-unchanged r v db)

-- A report that is accepted or replayed leaves the database consistent.
pub finish_attempt-IsConsistent :
    (r : Report) (stamp : ℕ) (db : Db) → IsConsistent db → Ensures Kept (finish_attempt r stamp db)
unfolding finish_attempt
finish_attempt-IsConsistent r stamp db h =
    Ensures-bind (check_report r) _
      λ v checked. answer v (execution r.attempt_id r.worker_id r.fencing_token db) refl
  where
    answer :
        (v : Verdict) (o : Option Execution)
        → execution r.attempt_id r.worker_id r.fencing_token db ≡ o
        → Ensures Kept (finish_with r v stamp db o)
    answer v none e = finish_again-IsConsistent r v db h
    answer v (some x) e =
        Ensures-if (is_over stamp x) _ _ (λ over. finish_again-IsConsistent r v db h)
          λ live. finish_live-IsConsistent r v x stamp db h (
            live_attempt stamp x r.attempt_id r.worker_id r.fencing_token db
              (execution-Joined r.attempt_id r.worker_id r.fencing_token db x e) live)
