-- ===== src/Gateway/Finish.antt =====
-- A worker ends an attempt (`finish_attempt` of src/vgen/gateway/repository.py). The column
-- `safe_failure_details`, which no code reads back, is left out.
pub mod Ended
pub mod Replay
pub mod Conflict
pub mod Artifacts
use vgen.Base.{
  ℕ, zero, suc, ◌+◌, String, Bool, true, false, ◌&&◌, ◌||◌, not, Option, none, some, List, [], ◌∷◌,
  ◌++◌, leb, ltb, ◌==◌, if◌then◌else◌, is_none, is_some, test,
}
use vgen.Table.{Table, update_where, update_row}
use vgen.Protocol.{TaskState, AttemptState, task_in, attempt_in}
use vgen.Gateway.Db.{
  Db, Task, Attempt, Lease, Worker, WorkerStatus, Responsibility, Receipt, UsageEvent,
}
use vgen.Gateway.Tx.{
  Body, Result, ok, raise, ◌>>=◌, ◌>>◌, require, found, validation_failed, lease_lost,
  usage_report_invalid,
}
use vgen.Gateway.Sweep.{finalize_drained_workers, is_live, is_status}
use vgen.Gateway.Heartbeat.{Execution, execution, is_cancelled}
use vgen.Gateway.Outcome.{
  Metric, Metrics, Value, validate_usage_metrics, canonical_attempt_outcome,
  execution_cancelled_code,
}
use vgen.Gateway.Usage.{Canonical, canonical_usage_metrics, derive_gpu_active, append_ledger}
use vgen.Gateway.Receipts.{
  Finished, is_hex, is_finished, fenced_attempt, decode_finished_attempt_receipt,
}
use vgen.Gateway.Outputs.{Output, Published, validate_outputs, publish_outputs}

pub record Report : Type 0 where
  pub attempt_id : ℕ
  pub worker_id : ℕ
  pub fencing_token : ℕ
  pub succeeded : Bool
  pub outputs : List Output
  pub metrics : List (Metric × Value)
  pub failure_code : Option ℕ
  pub responsibility : Responsibility
  pub finish_semantic_hash : Option String

-- A report as the checks before the transaction leave it.
pub record Verdict : Type 0 where
  pub metrics : Metrics
  pub failure_code : Option ℕ
  pub responsibility : Responsibility

abbrev check_hash : Option String → Result (Unit {0})
check_hash none = ok tt
check_hash (some hash) = require (is_hex 64 hash) validation_failed

unfoldable pub check_report : Report → Result Verdict
unfolding is_hex validate_usage_metrics canonical_attempt_outcome
check_report r = do
  check_hash r.finish_semantic_hash
  metrics ← validate_usage_metrics r.metrics
  (code, responsibility) ← canonical_attempt_outcome r.succeeded r.failure_code r.responsibility
  ok (record { metrics = metrics; failure_code = code; responsibility = responsibility })

abbrev pub says_cancelled : Option ℕ → Bool
says_cancelled none = false
says_cancelled (some code) = code == execution_cancelled_code

-- The acknowledgement of a cancelled attempt that has no receipt.
abbrev pub acknowledge : Report → Verdict → Attempt → Db → Result (Finished × Db)
acknowledge r v a db =
    if attempt_in a.state (AttemptState.cancelled ∷ [])
      && test is_cancelled (db.tasks.row a.task_id)
      && says_cancelled v.failure_code
    then ok (
      record { attempt_id = r.attempt_id; task_id = a.task_id; state = AttemptState.cancelled },
      db,
    )
    else raise lease_lost

abbrev pub replay : Report → Verdict → Attempt → Db → Option Finished → Result (Finished × Db)
replay r v a db none = acknowledge r v a db
replay r v a db (some f) = ok (f, db)

abbrev pub replay_hash : Report → Verdict → Attempt → Option String → Body Finished
replay_hash r v a none db = acknowledge r v a db
replay_hash r v a (some hash) db =
    if is_finished a.state
    then (do f ← decode_finished_attempt_receipt a r.attempt_id hash; replay r v a db f)
    else acknowledge r v a db

-- The row joined with its task, which a foreign key provides.
abbrev pub with_task : Db → Option Attempt → Option Attempt
with_task db none = none
with_task db (some a) = if is_some (db.tasks.row a.task_id) then some a else none

-- The lease is gone, or the attempt is over.
abbrev pub resume : Report → Verdict → Db → Option Attempt → Result (Finished × Db)
resume r v db none = raise lease_lost
resume r v db (some a) = replay_hash r v a r.finish_semantic_hash db

unfoldable pub finish_again : Report → Verdict → Body Finished
unfolding decode_finished_attempt_receipt
finish_again r v db =
    resume r v db
      (with_task db (fenced_attempt r.worker_id r.fencing_token (db.attempts.row r.attempt_id)))

-- How a live attempt ends.
pub record Ending : Type 0 where
  pub cancellation : Bool
  pub attempt_state : AttemptState
  pub task_state : TaskState
  pub failure_code : Option ℕ
  pub responsibility : Responsibility

unfoldable pub ending : Report → Verdict → Task → Ending
ending r v t =
    if is_cancelled t
    then record {
      cancellation = true;
      attempt_state = AttemptState.cancelled;
      task_state = TaskState.cancelled;
      failure_code = some execution_cancelled_code;
      responsibility = Responsibility.consumer;
    }
    else record {
      cancellation = false;
      attempt_state = if r.succeeded then AttemptState.succeeded else AttemptState.failed;
      task_state = if r.succeeded then TaskState.succeeded else TaskState.failed;
      failure_code = v.failure_code;
      responsibility = v.responsibility;
    }

abbrev pub stored_receipt : Report → ℕ → AttemptState → Option Receipt
stored_receipt r task_id state =
    if is_some r.finish_semantic_hash
    then some (Receipt.receipt r.attempt_id task_id state)
    else none

-- The updates of the attempt, of its lease and, without a cancellation, of its task.
unfoldable pub store_finish : Report → Ending → ℕ → ℕ → Db → Db
store_finish r e task_id stamp db = record db {
  attempts =
      update_row r.attempt_id
        (λ a. record a {
          state = e.attempt_state;
          responsibility = some e.responsibility;
          failure_code = e.failure_code;
          finished_at = some stamp;
          finish_semantic_hash = r.finish_semantic_hash;
          finish_receipt = stored_receipt r task_id e.attempt_state;
        })
        db.attempts;
  leases = update_row r.attempt_id (λ l. record l { released_at = some stamp }) db.leases;
  tasks =
      if e.cancellation
      then db.tasks
      else update_row task_id
          (λ t. record t { state = e.task_state; finished_at = some stamp; updated_at = stamp })
          db.tasks;
}

abbrev first_time : Option ℕ → Option ℕ → ℕ → ℕ
first_time (some started) leased issued = started
first_time none (some leased) issued = leased
first_time none none issued = issued

-- The usage event and the ledger entry, of an attempt that was not cancelled before it ran.
unfoldable pub record_usage : Report → Verdict → Ending → Execution → ℕ → Db → Db
unfolding canonical_usage_metrics derive_gpu_active append_ledger
record_usage r v e x stamp db =
    if not e.cancellation || is_some x.attempt.started_at
    then (let started = first_time x.attempt.started_at x.attempt.leased_at x.lease.issued_at in
        append_ledger r.attempt_id
          (derive_gpu_active e.cancellation (canonical_usage_metrics v.metrics started stamp))
          e.responsibility stamp
          (record db {
            usage_events =
                db.usage_events
                ++ record {
                  attempt_id = r.attempt_id;
                  worker_id = r.worker_id;
                  observed_at = stamp;
                }
                  ∷ [];
          }))
    else db

abbrev pub is_draining : Worker → Bool
is_draining w = is_status w.status WorkerStatus.draining

unfoldable pub retire_worker : ℕ → ℕ → Db → Db
unfolding finalize_drained_workers
retire_worker worker_id stamp db =
    if test is_draining (db.workers.row worker_id) then finalize_drained_workers stamp db else db

unfoldable pub finish_live : Report → Verdict → Execution → ℕ → Body Finished
unfolding ending validate_outputs publish_outputs store_finish record_usage retire_worker
finish_live r v x stamp db = do
  let e = ending r v x.task
  require (e.cancellation || not (says_cancelled v.failure_code)) usage_report_invalid
  let task_id = x.attempt.task_id
  outputs ← validate_outputs task_id r.attempt_id db (if e.cancellation then [] else r.outputs)
  published ← publish_outputs task_id r.attempt_id stamp outputs (store_finish r e task_id stamp db)
  ok (
    record { attempt_id = r.attempt_id; task_id = task_id; state = e.attempt_state },
    retire_worker r.worker_id stamp (record_usage r v e x stamp published),
  )

abbrev pub is_over : ℕ → Execution → Bool
is_over stamp x = leb x.lease.expires_at stamp || not (is_live x.attempt.state)

abbrev pub finish_with : Report → Verdict → ℕ → Db → Option Execution → Result (Finished × Db)
finish_with r v stamp db none = finish_again r v db
finish_with r v stamp db (some x) =
    if is_over stamp x then finish_again r v db else finish_live r v x stamp db

unfoldable pub finish_attempt : Report → ℕ → Body Finished
unfolding check_report execution finish_again finish_live
finish_attempt r stamp db = do
  v ← check_report r
  finish_with r v stamp db (execution r.attempt_id r.worker_id r.fencing_token db)
