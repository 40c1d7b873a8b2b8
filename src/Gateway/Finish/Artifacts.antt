-- ===== src/Gateway/Finish/Artifacts.antt =====
-- Which artifacts a report publishes (`finish_attempt` of src/vgen/gateway/repository.py).
use vgen.Gateway.Db.{Db, Artifact}
use vgen.Gateway.Heartbeat.{Execution, execution}
use vgen.Gateway.Finish.{
  Report, Verdict, Ending, ending, finish_live, finish_again, finish_with, finish_attempt,
  store_finish, record_usage, retire_worker, is_over, check_report, ok, says_cancelled,
  usage_report_invalid,
}
use vgen.Gateway.Outputs.{
  Published, publish_outputs, publish_artifact, validate_outputs, is_reserved_output,
}
use vgen.Gateway.Receipts.{Finished}
use vgen.Gateway.Sweep.{finalize_drained_workers}
use vgen.Gateway.Safety.Finishing.{publish_step, finish_again-unchanged}
use vgen.Base.{
  [], ◌∷◌, ◌||◌, ◌≡◌, none, some, false, arith, if◌then◌else◌, ℕ, List, Option, String, subst, not,
}
use vgen.Gateway.Tx.{
  Ensures, Ensures-mono, Ensures-require, Ensures-if, Ensures-at, Ensures-bind, Ensures-ok,
}

publish_artifact-other :
    (task_id attempt_id stamp j k : ℕ) (metadata : List (String × String)) (a : Artifact) (db : Db)
    → db.artifacts.row k ≡ some a
    → is_reserved_output task_id attempt_id a ≡ false
    → (publish_artifact task_id attempt_id stamp j metadata db).artifacts.row k ≡ some a
unfolding publish_artifact
publish_artifact-other task_id attempt_id stamp j k metadata a db row other =
    rw (row, other) (ground arith)

publish_outputs-other :
    (task_id attempt_id stamp k : ℕ) (ps : Published) (a : Artifact) (db : Db) {db' : Db}
    → publish_outputs task_id attempt_id stamp ps db ≡ ok db'
    → db.artifacts.row k ≡ some a
    → is_reserved_output task_id attempt_id a ≡ false
    → db'.artifacts.row k ≡ some a
unfolding publish_outputs
publish_outputs-other task_id attempt_id stamp k [] a db {db'} e row other =
    let same : db ≡ db' = ground arith in subst (λ d. d.artifacts.row k ≡ some a) same row
publish_outputs-other task_id attempt_id stamp k ((j, metadata) ∷ rest) a db e row other =
    publish_outputs-other task_id attempt_id stamp k rest a _
      (publish_step task_id attempt_id stamp j metadata rest db e)
      (publish_artifact-other task_id attempt_id stamp j k metadata a db row other) other

record_usage-artifacts :
    (r : Report) (v : Verdict) (e : Ending) (x : Execution) (stamp : ℕ) (db : Db)
    → (record_usage r v e x stamp db).artifacts ≡ db.artifacts
unfolding record_usage
record_usage-artifacts r v e x stamp db = ground arith

retire_worker-artifacts :
    (worker_id stamp : ℕ) (db : Db) → (retire_worker worker_id stamp db).artifacts ≡ db.artifacts
unfolding retire_worker finalize_drained_workers
retire_worker-artifacts worker_id stamp db = ground arith

module _ (r : Report) (stamp k : ℕ) (a : Artifact) (db : Db)
    (row : db.artifacts.row k ≡ some a) where
  -- An artifact that is not an uploaded output of the finished attempt stays as it is.
  abbrev Spares : Finished → Db → Type 0
  Spares f db' = is_reserved_output f.task_id r.attempt_id a ≡ false → db'.artifacts.row k ≡ some a

  finish_again-Spares : (v : Verdict) → Ensures Spares (finish_again r v db)
  finish_again-Spares v =
      Ensures-mono (λ f after e other. rw e row) (finish_again r v db)
        (finish_again-unchanged r v db)

  finish_live-Spares : (v : Verdict) (x : Execution) → Ensures Spares (finish_live r v x stamp db)
  unfolding finish_live store_finish
  finish_live-Spares v x =
      let e = ending r v x.task in
      Ensures-require (e.cancellation || not (says_cancelled v.failure_code)) usage_report_invalid _
        λ said.
          Ensures-bind
            (validate_outputs x.attempt.task_id r.attempt_id db
              (if e.cancellation then [] else r.outputs))
            _
            λ outputs valid.
              Ensures-bind
                (publish_outputs x.attempt.task_id r.attempt_id stamp outputs
                  (store_finish r e x.attempt.task_id stamp db))
                _
                λ published done. Ensures-ok _ _ λ other.
                  rw
                    (
                      retire_worker-artifacts r.worker_id stamp
                          (record_usage r v e x stamp published),
                      record_usage-artifacts r v e x stamp published,
                    )
                    (publish_outputs-other x.attempt.task_id r.attempt_id stamp k outputs a _ done
                      row other)

  finish_with-Spares :
      (v : Verdict) (o : Option Execution) → Ensures Spares (finish_with r v stamp db o)
  finish_with-Spares v none = finish_again-Spares v
  finish_with-Spares v (some x) =
      Ensures-if (is_over stamp x) _ _ (λ over. finish_again-Spares v)
        λ live. finish_live-Spares v x

-- A report that is accepted leaves every artifact as it is that is not an uploaded output of the
-- finished attempt: those of other tasks and attempts, inputs, and outputs that are published.
pub finish_spares_artifacts :
    (r : Report) (stamp k : ℕ) (a : Artifact) (db db' : Db) (f : Finished)
    → finish_attempt r stamp db ≡ ok (f, db')
    → db.artifacts.row k ≡ some a
    → is_reserved_output f.task_id r.attempt_id a ≡ false
    → db'.artifacts.row k ≡ some a
unfolding finish_attempt
finish_spares_artifacts r stamp k a db db' f e row other =
    Ensures-at {Q = Spares r stamp k a db row} (finish_attempt r stamp db) e
      (Ensures-bind (check_report r) _ λ v checked.
        finish_with-Spares r stamp k a db row v
          (execution r.attempt_id r.worker_id r.fencing_token db))
      other
