-- ===== src/Gateway/Requests.antt =====
-- The gateway's scheduling requests and their histories: each request runs in a transaction of its
-- own, and one that raises changes nothing (src/vgen/gateway/repository.py).
use vgen.Gateway.Db.{Db, Worker, Task}
use vgen.Gateway.Tasks.{CommitRequest, commit_task, cancel_task}
use vgen.Gateway.Rekey.{RekeyRequest, prepare_retry, commit_rekey}
use vgen.Gateway.Heartbeat.{Heartbeat, heartbeat_attempt}
use vgen.Gateway.Finish.{Report, finish_attempt}
use vgen.Gateway.Leasing.{lease}
use vgen.Gateway.Prepare.{PrepareRequest, prepare_task}
use vgen.Gateway.Brokers.{broker_device_heartbeat}
use vgen.Gateway.Access.{Principal}
use vgen.Base.{[], ◌∷◌, ℕ, List, Bool, Option, String}
use vgen.Gateway.Tx.{transaction, after}
use vgen.Gateway.Expiry.{sweep_expired}
use vgen.Gateway.Jobs.Requests.{serve_job}
use vgen.Gateway.Jobs.Drivers.{JobRequest}
use vgen.Gateway.Workers.{Projection, worker_heartbeat, leave_worker}
use vgen.Gateway.Artifacts.{InputDescriptor, reserve_input_artifacts, reserve_output_artifacts}

-- The requests that move tasks, attempts and leases, with the time that each runs at; `match`
-- stands for `_matches_requirements`.
pub data Request : Type 0 where
  commit : CommitRequest → Request
  cancel : (task_id : ℕ) → Principal → Request
  take_lease : (worker_id ttl : ℕ) → Request
  report_heartbeat : Heartbeat → Request
  report_finish : Report → Request
  retry : (Db → ℕ → Worker → Task → Bool) → (task_id : ℕ) → Principal → (ttl : ℕ) → Request
  rekey : RekeyRequest → Request
  sweep : Request
  prepare : (Db → ℕ → Worker → PrepareRequest → Bool) → PrepareRequest → Request
  reserve_inputs :
      (ℕ → String) → (task_id : ℕ) → List InputDescriptor → (store_type : String) → Request
  reserve_outputs : (ℕ → String) → (task_id attempt_id count : ℕ) → (store_type : String) → Request
  maintain : JobRequest → Request
  report_worker : Projection → (worker_id : ℕ) → Option String → Request
  report_broker : (broker_device_id user_id broker_id : ℕ) → Request
  leave : (worker_id owner_user_id : ℕ) → Bool → Request

unfoldable pub serve : Request → ℕ → Db → Db
unfolding transaction commit_task cancel_task lease heartbeat_attempt finish_attempt prepare_retry
    commit_rekey sweep_expired prepare_task serve_job worker_heartbeat leave_worker
    reserve_input_artifacts reserve_output_artifacts broker_device_heartbeat
serve (commit r) stamp = after (commit_task r stamp)
serve (cancel task_id p) stamp = after (cancel_task task_id p stamp)
serve (take_lease worker_id ttl) stamp = after (lease worker_id ttl stamp)
serve (report_heartbeat h) stamp = after (heartbeat_attempt h stamp)
serve (report_finish r) stamp = after (finish_attempt r stamp)
serve (retry matches task_id p ttl) stamp = after (prepare_retry matches task_id p ttl stamp)
serve (rekey r) stamp = after (commit_rekey r stamp)
serve sweep stamp = after (sweep_expired stamp)
serve (prepare matches q) stamp = after (prepare_task matches q stamp)
serve (reserve_inputs text_of task_id ds store_type) stamp =
    after (reserve_input_artifacts text_of task_id ds store_type stamp)
serve (reserve_outputs text_of task_id attempt_id count store_type) stamp =
    after (reserve_output_artifacts text_of task_id attempt_id count store_type stamp)
serve (maintain q) stamp = serve_job q stamp
serve (report_worker projection worker_id report) stamp =
    after (worker_heartbeat projection worker_id report stamp)
serve (report_broker broker_device_id user_id broker_id) stamp =
    after (broker_device_heartbeat broker_device_id user_id broker_id stamp)
serve (leave worker_id owner_user_id force) stamp =
    after (leave_worker worker_id owner_user_id force stamp)

-- A history: requests with their times, the earliest first.
unfoldable pub run : List (Request × ℕ) → Db → Db
unfolding serve
run [] db = db
run ((q, stamp) ∷ rest) db = run rest (serve q stamp db)
