-- ===== src/Gateway/Safety/Runs.antt =====
-- Any order of the gateway's scheduling requests keeps the database consistent
-- (src/vgen/gateway/repository.py).
use vgen.Gateway.Jobs.Drivers.{sweep_maintenance, record_upload}
use vgen.Gateway.Requests.{
  Request, serve, run, cancel, commit, leave, maintain, prepare, rekey, report_finish,
  report_heartbeat, report_worker, reserve_inputs, reserve_outputs, retry, sweep, take_lease,
  report_broker,
}
use vgen.Gateway.Db.{Db, Attempt}
use vgen.Gateway.Tasks.{commit_task, cancel_task}
use vgen.Gateway.Rekey.{prepare_retry, commit_rekey}
use vgen.Gateway.Heartbeat.{heartbeat_attempt}
use vgen.Gateway.Finish.{finish_attempt}
use vgen.Gateway.Leasing.{lease}
use vgen.Gateway.Prepare.{prepare_task}
use vgen.Gateway.Safety.Preparations.{prepare_task-IsConsistent}
use vgen.Gateway.Jobs.{claim_worker_maintenance}
use vgen.Base.{[], ◌∷◌, ◌≡◌, some, true, arith, ℕ, List, refl, none, Option}
use vgen.Gateway.Tx.{
  Body, transaction, Ensures, Result, settle, ok, raise, Ensures-ok, after, Ensures-found,
  broker_device_access_denied, Ensures-require,
}
use vgen.Gateway.Safety.{IsConsistent, is_live}
use vgen.Gateway.Safety.Consumers.{
  commit_task-IsConsistent, cancel_task-IsConsistent, commit_rekey-IsConsistent,
}
use vgen.Gateway.Safety.Leases.{Kept, lease-IsConsistent}
use vgen.Gateway.Safety.Reports.{heartbeat_attempt-IsConsistent}
use vgen.Gateway.Safety.Finishing.{finish_attempt-IsConsistent}
use vgen.Gateway.Safety.Retries.{prepare_retry-IsConsistent}
use vgen.Gateway.Expiry.{sweep_expired, expire_commands}
use vgen.Gateway.Commands.{
  enqueue_each, ensure_rekey_commands, key_of, last_attempt, needs_rekey_command,
}
use vgen.Gateway.Safety.Sweeps.{
  enqueue-IsConsistent, expire_leases-IsConsistent, expire_reservations-IsConsistent,
  IsConsistent-same,
}
use vgen.Table.{select_where}
use vgen.Gateway.Safety.Claims.{expire_maintenance_jobs-IsConsistent, claim-IsConsistent}
use vgen.Gateway.Jobs.Requests.{serve_job}
use vgen.Gateway.Jobs.Drivers.{
  JobRequest, commit_maintenance, cancel_maintenance, claim_maintenance, heartbeat_maintenance,
  complete_maintenance,
}
use vgen.Gateway.Jobs.Reports.{heartbeat_worker_maintenance, fenced_job}
use vgen.Gateway.Jobs.Completion.{complete_worker_maintenance}
use vgen.Gateway.Jobs.Consumers.{commit_worker_maintenance, cancel_worker_maintenance}
use vgen.Gateway.Safety.Maintenance.{
  commit_maintenance-IsConsistent, cancel_maintenance-IsConsistent, heartbeat_job-IsConsistent,
  complete_job-IsConsistent, mark_artifact_uploaded-IsConsistent,
}
use vgen.Gateway.Workers.{worker_heartbeat, leave_worker}
use vgen.Gateway.Safety.Departures.{worker_heartbeat-IsConsistent, leave_worker-IsConsistent}
use vgen.Gateway.Artifacts.{reserve_input_artifacts, reserve_output_artifacts}
use vgen.Gateway.Safety.Artifacts.{reserve_inputs-IsConsistent, reserve_outputs-IsConsistent}
use vgen.Gateway.Brokers.{broker_device_heartbeat, touch_device, broker_device_of, is_linked_device}

enqueue_each-IsConsistent :
    (stamp : ℕ) (ks : List ℕ) (db : Db)
    → IsConsistent db
    → IsConsistent (enqueue_each stamp ks db).0
unfolding enqueue_each
enqueue_each-IsConsistent stamp [] db h = h
enqueue_each-IsConsistent stamp (k ∷ ks) db h =
    enqueue_each-IsConsistent stamp ks _
      (enqueue-IsConsistent k (key_of (last_attempt k db)) "rekey_required" stamp db h)

ensure_rekey_commands-IsConsistent :
    (consumer : Option ℕ) (stamp : ℕ) (db : Db)
    → IsConsistent db
    → IsConsistent (ensure_rekey_commands consumer stamp db).0
unfolding ensure_rekey_commands
ensure_rekey_commands-IsConsistent consumer stamp db h =
    enqueue_each-IsConsistent stamp (select_where (needs_rekey_command consumer stamp db) db.tasks)
      db h

sweep_expired-IsConsistent :
    (stamp : ℕ) (db : Db) → IsConsistent db → Ensures Kept (sweep_expired stamp db)
unfolding sweep_expired
sweep_expired-IsConsistent stamp db h = Ensures-ok _ _ (
    ensure_rekey_commands-IsConsistent none stamp _ (
      expire_maintenance_jobs-IsConsistent stamp _ (
        expire_leases-IsConsistent stamp _ (
          expire_reservations-IsConsistent stamp
            (record db { commands = expire_commands stamp db.commands })
            (IsConsistent-same h refl refl refl refl refl)))))

broker_device_heartbeat-IsConsistent :
    (broker_device_id user_id broker_id stamp : ℕ) (db : Db)
    → IsConsistent db
    → Ensures Kept (broker_device_heartbeat broker_device_id user_id broker_id stamp db)
unfolding broker_device_heartbeat touch_device
broker_device_heartbeat-IsConsistent broker_device_id user_id broker_id stamp db h =
    Ensures-found (broker_device_of broker_device_id db) broker_device_access_denied _ λ d row.
      Ensures-require (is_linked_device user_id broker_id d.1) broker_device_access_denied _
        λ known. Ensures-ok _ _ (
          ensure_rekey_commands-IsConsistent (some d.1.owner_user_id) stamp _ (
            expire_leases-IsConsistent stamp (touch_device d.1.device_id stamp db)
              (IsConsistent-same h refl refl refl refl refl)))

transaction-IsConsistent :
    {A : Type 0} (body : Body A) (db : Db)
    → IsConsistent db
    → Ensures Kept (body db)
    → IsConsistent (after body db)
unfolding transaction
transaction-IsConsistent {A} body db h e = settled (body db) e
  where
    settled : (m : Result (A × Db)) → Ensures Kept m → IsConsistent (settle db m).1
    settled (ok (a, db')) k = k.at
    settled (raise fault) k = h

serve_job-IsConsistent :
    (q : JobRequest) (stamp : ℕ) (db : Db) → IsConsistent db → IsConsistent (serve_job q stamp db)
unfolding serve_job heartbeat_worker_maintenance complete_worker_maintenance
serve_job-IsConsistent (commit_maintenance job_id user_id device_id) stamp db h =
    transaction-IsConsistent (commit_worker_maintenance job_id user_id device_id stamp) db h
      (commit_maintenance-IsConsistent job_id user_id device_id stamp db h)
serve_job-IsConsistent (cancel_maintenance job_id owner_user_id) stamp db h =
    transaction-IsConsistent (cancel_worker_maintenance job_id owner_user_id stamp) db h
      (cancel_maintenance-IsConsistent job_id owner_user_id stamp db h)
serve_job-IsConsistent (claim_maintenance worker_id session_id ttl supported) stamp db h =
    transaction-IsConsistent (claim_worker_maintenance worker_id session_id ttl supported stamp) db
      h (claim-IsConsistent worker_id session_id ttl stamp supported db h)
serve_job-IsConsistent (heartbeat_maintenance r) stamp db h =
    transaction-IsConsistent (heartbeat_worker_maintenance r stamp) db h
      (heartbeat_job-IsConsistent r stamp (fenced_job r.job_id r.worker_id r.fencing_token db) db h)
serve_job-IsConsistent (complete_maintenance auth r) stamp db h =
    transaction-IsConsistent (complete_worker_maintenance auth r stamp) db h (
      complete_job-IsConsistent auth r stamp (fenced_job r.job_id r.worker_id r.fencing_token db) db
        h)
serve_job-IsConsistent (record_upload prefixed artifact_id size digest) stamp db h =
    mark_artifact_uploaded-IsConsistent prefixed artifact_id size digest stamp db h
serve_job-IsConsistent sweep_maintenance stamp db h =
    transaction-IsConsistent (sweep_expired stamp) db h (sweep_expired-IsConsistent stamp db h)

-- Every request leaves a consistent database consistent, whether it is answered or raises.
pub serve-IsConsistent :
    (q : Request) (stamp : ℕ) (db : Db) → IsConsistent db → IsConsistent (serve q stamp db)
unfolding serve
serve-IsConsistent (commit r) stamp db h =
    transaction-IsConsistent (commit_task r stamp) db h (commit_task-IsConsistent r stamp db h)
serve-IsConsistent (cancel task_id p) stamp db h =
    transaction-IsConsistent (cancel_task task_id p stamp) db h
      (cancel_task-IsConsistent task_id p stamp db h)
serve-IsConsistent (take_lease worker_id ttl) stamp db h =
    transaction-IsConsistent (lease worker_id ttl stamp) db h
      (lease-IsConsistent worker_id ttl stamp db h)
serve-IsConsistent (report_heartbeat r) stamp db h =
    transaction-IsConsistent (heartbeat_attempt r stamp) db h
      (heartbeat_attempt-IsConsistent r stamp db h)
serve-IsConsistent (report_finish r) stamp db h =
    transaction-IsConsistent (finish_attempt r stamp) db h
      (finish_attempt-IsConsistent r stamp db h)
serve-IsConsistent (retry matches task_id p ttl) stamp db h =
    transaction-IsConsistent (prepare_retry matches task_id p ttl stamp) db h
      (prepare_retry-IsConsistent matches task_id p ttl stamp db h)
serve-IsConsistent (rekey r) stamp db h =
    transaction-IsConsistent (commit_rekey r stamp) db h (commit_rekey-IsConsistent r stamp db h)
serve-IsConsistent sweep stamp db h =
    transaction-IsConsistent (sweep_expired stamp) db h (sweep_expired-IsConsistent stamp db h)
serve-IsConsistent (prepare matches q) stamp db h =
    transaction-IsConsistent (prepare_task matches q stamp) db h
      (prepare_task-IsConsistent matches q stamp db h)
serve-IsConsistent (reserve_inputs text_of task_id ds store_type) stamp db h =
    transaction-IsConsistent (reserve_input_artifacts text_of task_id ds store_type stamp) db h
      (reserve_inputs-IsConsistent text_of task_id ds store_type stamp db h)
serve-IsConsistent (reserve_outputs text_of task_id attempt_id count store_type) stamp db h =
    transaction-IsConsistent
      (reserve_output_artifacts text_of task_id attempt_id count store_type stamp) db h
      (reserve_outputs-IsConsistent text_of task_id attempt_id count store_type stamp db h)
serve-IsConsistent (maintain q) stamp db h = serve_job-IsConsistent q stamp db h
serve-IsConsistent (report_worker projection worker_id report) stamp db h =
    transaction-IsConsistent (worker_heartbeat projection worker_id report stamp) db h
      (worker_heartbeat-IsConsistent projection worker_id report stamp db h)
serve-IsConsistent (leave worker_id owner_user_id force) stamp db h =
    transaction-IsConsistent (leave_worker worker_id owner_user_id force stamp) db h
      (leave_worker-IsConsistent worker_id owner_user_id force stamp db h)
serve-IsConsistent (report_broker broker_device_id user_id broker_id) stamp db h =
    transaction-IsConsistent (broker_device_heartbeat broker_device_id user_id broker_id stamp) db h
      (broker_device_heartbeat-IsConsistent broker_device_id user_id broker_id stamp db h)

-- Every history of preparations, commits, cancellations, requests for work, heartbeats, reports,
-- retries, rekeys, sweeps, reservations of artifacts, reports and departures of workers, reports of
-- brokers, and requests on maintenance jobs, each answered or not, leads from a consistent database
-- to a consistent one.
pub run-IsConsistent :
    (history : List (Request × ℕ)) (db : Db) → IsConsistent db → IsConsistent (run history db)
unfolding run
run-IsConsistent [] db h = h
run-IsConsistent ((q, stamp) ∷ rest) db h =
    run-IsConsistent rest (serve q stamp db) (serve-IsConsistent q stamp db h)

-- After any history from a consistent database, two attempts of one task that are both leased or
-- running are the same attempt.
pub one_live_attempt :
    (history : List (Request × ℕ)) (db : Db) (j k : ℕ) (a b : Attempt)
    → IsConsistent db
    → (run history db).attempts.row j ≡ some a
    → (run history db).attempts.row k ≡ some b
    → is_live a.state ≡ true
    → is_live b.state ≡ true
    → a.task_id ≡ b.task_id
    → j ≡ k
one_live_attempt history db j k a b h ea eb la lb same =
    ground (arith, (run-IsConsistent history db h).live_unique j k)
