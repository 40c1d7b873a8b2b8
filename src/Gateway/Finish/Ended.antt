-- ===== src/Gateway/Finish/Ended.antt =====
-- What a report leaves behind that ended an attempt (`finish_attempt` of
-- src/vgen/gateway/repository.py).
use vgen.Gateway.Db.{Db, Attempt, Receipt}
use vgen.Gateway.Heartbeat.{Execution, fenced}
use vgen.Gateway.Finish.{
  Report, Verdict, Ending, ending, finish_live, store_finish, record_usage, retire_worker,
  finalize_drained_workers, ok, stored_receipt, says_cancelled, usage_report_invalid,
}
use vgen.Gateway.Outputs.{Published, publish_outputs, validate_outputs}
use vgen.Gateway.Receipts.{Finished, is_finished}
use vgen.Gateway.Sweep.{finalize_drained_workers}
use vgen.Gateway.Safety.Reports.{Joined}
use vgen.Base.{
  [], ◌∷◌, ◌≡◌, none, some, true, refl, arith, String, ℕ, is_some, ◌||◌, ◌∙◌, if◌then◌else◌, not,
}
use vgen.Gateway.Safety.Finishing.{publish_step}
use vgen.Gateway.Tx.{Ensures, Ensures-require, Ensures-bind, Ensures-ok}
use vgen.Gateway.Safety.{IsConsistent}

-- An attempt that a report with a hash ended: its receipt is stored and its lease is released.
pub record Ended (r : Report) (hash : String) (f : Finished) (db : Db) : Type 0 where
  pub attempt : Attempt
  pub row : db.attempts.row r.attempt_id ≡ some attempt
  pub worker : attempt.worker_id ≡ r.worker_id
  pub token : attempt.fencing_token ≡ r.fencing_token
  pub over : is_finished attempt.state ≡ true
  pub stored_hash : attempt.finish_semantic_hash ≡ some hash
  pub stored_receipt :
      attempt.finish_receipt ≡ some (Receipt.receipt r.attempt_id f.task_id attempt.state)
  pub answer : f ≡ record { attempt_id = r.attempt_id; task_id = f.task_id; state = attempt.state }
  pub task_there : is_some (db.tasks.row attempt.task_id) ≡ true
  pub unleased : fenced r.worker_id r.fencing_token (db.leases.row r.attempt_id) ≡ none

publish_outputs-same :
    (task_id attempt_id stamp : ℕ) (ps : Published) (db : Db) {db' : Db}
    → publish_outputs task_id attempt_id stamp ps db ≡ ok db'
    → (db'.attempts ≡ db.attempts) × (db'.tasks ≡ db.tasks) × (db'.leases ≡ db.leases)
unfolding publish_outputs
publish_outputs-same task_id attempt_id stamp [] db e = (ground arith, ground arith, ground arith)
publish_outputs-same task_id attempt_id stamp ((k, metadata) ∷ rest) db e =
    publish_outputs-same task_id attempt_id stamp rest _
      (publish_step task_id attempt_id stamp k metadata rest db e)

record_usage-same :
    (r : Report) (v : Verdict) (e : Ending) (x : Execution) (stamp : ℕ) (db : Db)
    → ((record_usage r v e x stamp db).attempts ≡ db.attempts)
      × ((record_usage r v e x stamp db).tasks ≡ db.tasks)
      × ((record_usage r v e x stamp db).leases ≡ db.leases)
unfolding record_usage
record_usage-same r v e x stamp db = (ground arith, ground arith, ground arith)

retire_worker-same :
    (worker_id stamp : ℕ) (db : Db)
    → ((retire_worker worker_id stamp db).attempts ≡ db.attempts)
      × ((retire_worker worker_id stamp db).tasks ≡ db.tasks)
      × ((retire_worker worker_id stamp db).leases ≡ db.leases)
unfolding retire_worker finalize_drained_workers
retire_worker-same worker_id stamp db = (ground arith, ground arith, ground arith)

module _ (r : Report) (hash : String) (hashed : r.finish_semantic_hash ≡ some hash) (v : Verdict)
    (x : Execution) (stamp : ℕ) (db : Db) (j : Joined r.attempt_id r.worker_id r.fencing_token db x)
    (agrees : (x.attempt.worker_id ≡ r.worker_id)
      × (x.attempt.fencing_token ≡ r.fencing_token)) where
  abbrev ended_answer : Finished
  ended_answer = record {
    attempt_id = r.attempt_id;
    task_id = x.attempt.task_id;
    state = (ending r v x.task).attempt_state;
  }

  is_finished-ending : is_finished (ending r v x.task).attempt_state ≡ true
  unfolding ending
  is_finished-ending = ground arith

  store_finish-Ended :
      Ended r hash ended_answer (store_finish r (ending r v x.task) x.attempt.task_id stamp db)
  unfolding store_finish
  store_finish-Ended = record {
    attempt = record x.attempt {
      state = (ending r v x.task).attempt_state;
      responsibility = some (ending r v x.task).responsibility;
      failure_code = (ending r v x.task).failure_code;
      finished_at = some stamp;
      finish_semantic_hash = r.finish_semantic_hash;
      finish_receipt = stored_receipt r x.attempt.task_id (ending r v x.task).attempt_state;
    };
    row = ground (arith, j.attempt_row);
    worker = agrees.0;
    token = agrees.1;
    over = is_finished-ending;
    stored_hash = hashed;
    stored_receipt = ground (arith, hashed);
    answer = refl;
    task_there = ground (arith, j.task_row);
    unleased = ground (arith, j.lease_row);
  }

module _ (r : Report) (hash : String) (f : Finished) (db db' : Db) where
  Ended-same :
      db'.attempts ≡ db.attempts
      → db'.tasks ≡ db.tasks
      → db'.leases ≡ db.leases
      → Ended r hash f db
      → Ended r hash f db'
  Ended-same as_ ts ls e = record {
    attempt = e.attempt;
    row = rw as_ e.row;
    worker = e.worker;
    token = e.token;
    over = e.over;
    stored_hash = e.stored_hash;
    stored_receipt = e.stored_receipt;
    answer = e.answer;
    task_there = rw ts e.task_there;
    unleased = rw ls e.unleased;
  }

pub finish_live-Ended :
    (r : Report) (hash : String) (v : Verdict) (x : Execution) (stamp : ℕ) (db : Db)
    → r.finish_semantic_hash ≡ some hash
    → Joined r.attempt_id r.worker_id r.fencing_token db x
    → (x.attempt.worker_id ≡ r.worker_id) × (x.attempt.fencing_token ≡ r.fencing_token)
    → Ensures (Ended r hash) (finish_live r v x stamp db)
unfolding finish_live
finish_live-Ended r hash v x stamp db hashed j agrees =
    let e = ending r v x.task in
    Ensures-require (e.cancellation || not (says_cancelled v.failure_code)) usage_report_invalid _
      λ said.
        Ensures-bind
          (validate_outputs x.attempt.task_id r.attempt_id db
            (if e.cancellation then [] else r.outputs))
          _
          λ outputs valid.
            Ensures-bind
              (publish_outputs x.attempt.task_id r.attempt_id stamp outputs
                (store_finish r e x.attempt.task_id stamp db))
              _
              λ published done.
                let p =
                  publish_outputs-same x.attempt.task_id r.attempt_id stamp outputs
                    (store_finish r e x.attempt.task_id stamp db) done in
                let u = record_usage-same r v e x stamp published in
                let w =
                  retire_worker-same r.worker_id stamp (record_usage r v e x stamp published) in
                Ensures-ok _ _ (
                  Ended-same r hash _ _ _ (w.0 ∙ u.0 ∙ p.0) (w.1 ∙ u.1 ∙ p.1) (w.2 ∙ u.2 ∙ p.2)
                    (store_finish-Ended r hash hashed v x stamp db j agrees))

-- The attempt of a live lease is under the same worker and token.
pub fence_agrees :
    (r : Report) (x : Execution) (db : Db)
    → IsConsistent db
    → Joined r.attempt_id r.worker_id r.fencing_token db x
    → (x.attempt.worker_id ≡ r.worker_id) × (x.attempt.fencing_token ≡ r.fencing_token)
fence_agrees r x db h j = (
  ground (arith, h.leases_fenced r.attempt_id, j.lease_row, j.attempt_row, j.worker, j.unreleased),
  ground
      (arith, h.leases_fenced r.attempt_id, j.lease_row, j.attempt_row, j.token_is, j.unreleased),
)
