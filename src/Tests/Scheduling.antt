-- ===== src/Tests/Scheduling.antt =====
-- Requests for work, histories, cancellations and sweeps on the small database.
use vgen.Gateway.Safety.Runs.{run-IsConsistent, one_live_attempt}
use vgen.Gateway.Requests.{Request, run}
use vgen.Gateway.Leasing.{lease, Grant, active_count, next_task}
use vgen.Gateway.Leasing.Grants.{swept}
use vgen.Gateway.Leasing.Order.{lease_in_order, lease_token_greatest, Follows}
use vgen.Gateway.Leasing.Capacity.{lease_within_capacity}
use vgen.Gateway.Leasing.Constraints.{lease_breaks_no_constraint}
use vgen.Gateway.Tasks.Cancel.{cancel_spares_running, cancel_twice, Spared}
use vgen.Gateway.Tasks.Queue.{queue_head_is_next}
use vgen.Gateway.Sweep.Effects.{
  expire_reservations_clears, retired_worker_idle, expire_maintenance_jobs_clears,
}
use vgen.Tests.World.{
  world, world-IsConsistent, task_10, task_11, task_12, attempt_20, attempt_21, attempt_of, no_rows,
  lease_21,
}
use vgen.Gateway.Sweep.{task_expired, expire_reservations, expire_leases}
use vgen.Tests.World.{
  quiet_world, quiet_world-IsConsistent, job_world, draining_1, ended_21, stale_job,
}
use vgen.Gateway.Sweep.{finalize_drained_workers, is_drained, is_status, holds_slot}
use vgen.Gateway.Expiry.{expire_maintenance_jobs, is_open_job, is_held_job}
use vgen.Protocol.{TaskState, AttemptState, task_in}
use vgen.Gateway.Access.{Principal, require_task_consumer}
use vgen.Base.{
  [], ◌∷◌, ◌≤◌, ◌<◌, ◌≡◌, ◌≢◌, some, false, suc, refl, List, ℕ, true, arith, test, none, ap, passed,
  inl,
}
use vgen.Gateway.Db.{PrincipalType, Attempt, Db, Task, Worker, WorkerStatus, Job, JobState}
use vgen.Gateway.Safety.{IsConsistent}
use vgen.Gateway.Tx.{after, transaction, raise, integrity_error, ok}
use vgen.Gateway.Tasks.{cancel_task, task_queue_position}
use vgen.Table.{insert}
use vgen.Gateway.Sweep.Lapsed.{expire_leases_clears}

abbrev consumer_8 : Principal
consumer_8 = record { principal_type = PrincipalType.device; principal_id = 9; user_id = some 8 }

-- The worker takes task 10, the consumer cancels task 11, and the sweep runs.
abbrev history : List (Request × ℕ)
history =
    (Request.take_lease 1 60, 100) ∷ (Request.cancel 11 consumer_8, 110) ∷ (Request.sweep, 120) ∷ []

run-IsConsistent_example : IsConsistent (run history world)
run-IsConsistent_example = run-IsConsistent history world world-IsConsistent

abbrev leased_20 : Attempt
leased_20 = record attempt_20 {
  state = AttemptState.leased;
  fencing_token = 4;
  leased_at = some 100;
}

one_live_attempt_example : ◌≡◌ {A = ℕ} 20 20
unfolding run task_expired require_task_consumer
one_live_attempt_example =
    one_live_attempt history world 20 20 leased_20 leased_20 world-IsConsistent refl refl refl refl
      refl

abbrev grant_10 : Grant
grant_10 = record {
  lease_id = 100;
  attempt_id = 20;
  task_id = 10;
  fencing_token = 4;
  expires_at = 160;
  key_version = 1;
  encrypted_tdk_envelope = "wrapped";
}

abbrev leased_world : Db
leased_world = after (lease 1 60 100) world

lease_in_order_example :
    (t : Task) × ((swept 100 world).tasks.row 10 ≡ some t) × Follows (10, task_10) (10, t)
unfolding lease transaction task_expired
lease_in_order_example =
    lease_in_order 1 60 100 world leased_world grant_10 10 task_10 world-IsConsistent refl refl refl

lease_token_greatest_example : 3 < 4
unfolding lease transaction task_expired
lease_token_greatest_example =
    lease_token_greatest 1 60 100 world leased_world grant_10 21 attempt_21 world-IsConsistent refl
      refl refl

lease_within_capacity_example :
    (w : Worker) × ((swept 100 world).workers.row 1 ≡ some w)
    × (active_count 1 leased_world ≡ suc (active_count 1 (swept 100 world)))
    × (active_count 1 leased_world ≤ w.capacity)
unfolding lease transaction task_expired
lease_within_capacity_example =
    lease_within_capacity 1 60 100 world leased_world grant_10 world-IsConsistent refl

lease_breaks_no_constraint_example : lease 1 60 100 world ≢ raise integrity_error
lease_breaks_no_constraint_example = lease_breaks_no_constraint 1 60 100 world world-IsConsistent

cancel_spares_running_example :
    (TaskState.cancelled ≡ TaskState.cancelled)
    × (test
          (λ u. task_in u.state (TaskState.cancelled ∷ []))
          ((after (cancel_task 11 consumer_8 110) world).tasks.row 11)
        ≡ true)
    × Spared 110 world (after (cancel_task 11 consumer_8 110) world) 21 attempt_21
unfolding cancel_task transaction require_task_consumer
cancel_spares_running_example =
    cancel_spares_running 11 consumer_8 110 world (after (cancel_task 11 consumer_8 110) world)
      task_11 TaskState.cancelled 21 attempt_21 refl refl refl refl refl

cancel_twice_example :
    cancel_task 11 consumer_8 130 (after (cancel_task 11 consumer_8 110) world)
    ≡ ok (TaskState.cancelled, after (cancel_task 11 consumer_8 110) world)
unfolding cancel_task transaction require_task_consumer
cancel_twice_example =
    cancel_twice 11 consumer_8 110 130 world (after (cancel_task 11 consumer_8 110) world)
      TaskState.cancelled refl

queue_head_is_next_example : next_task 1 100 world ≡ some (10, task_10)
unfolding task_queue_position
queue_head_is_next_example =
    queue_head_is_next 1 100 10 task_10 world world-IsConsistent.tasks_table refl refl refl

retired_worker_idle_example :
    (is_status WorkerStatus.draining WorkerStatus.draining ≡ true)
    × (test
          (λ v. is_status v.status WorkerStatus.revoked)
          ((finalize_drained_workers 100 quiet_world).workers.row 1)
        ≡ true)
    × (holds_slot AttemptState.succeeded ≡ false)
unfolding finalize_drained_workers is_drained
retired_worker_idle_example =
    retired_worker_idle 100 quiet_world 1 21 draining_1 ended_21 quiet_world-IsConsistent refl
      (λ e. ground (arith, ap (test (λ v. is_status v.status WorkerStatus.draining)) e)) refl refl

abbrev requeued_job : Job
requeued_job = record stale_job {
  state = JobState.queued;
  lease_session_id = none;
  lease_expires_at = none;
  heartbeat_at = none;
  updated_at = 100;
}

expire_maintenance_jobs_clears_example :
    (is_open_job JobState.queued ≡ true → 100 < 900)
    × (is_held_job JobState.queued ≡ true → passed none 100 ≡ false)
unfolding expire_maintenance_jobs
expire_maintenance_jobs_clears_example =
    expire_maintenance_jobs_clears 100 job_world 60 requeued_job refl

abbrev attempt_22 : Attempt
attempt_22 = attempt_of 12 AttemptState.reserved 2 none

-- A task that is prepared under a reservation until 50, with its attempt.
abbrev waiting_world : Db
waiting_world = record world { attempts = insert 22 attempt_22 no_rows }

abbrev expired_22 : Attempt
expired_22 = record attempt_22 { state = AttemptState.expired; finished_at = some 60 }

expire_reservations_clears_example :
    (u : Task) × ((expire_reservations 60 waiting_world).tasks.row 12 ≡ some u)
    × (u.state ≡ TaskState.expired)
    × (AttemptState.expired ≢ AttemptState.reserved)
    × (AttemptState.expired ≢ AttemptState.leased)
unfolding expire_reservations task_expired
expire_reservations_clears_example =
    expire_reservations_clears 60 50 waiting_world 12 22 task_12 expired_22 refl refl (omega arith)
      (inl refl) refl refl

expire_leases_clears_example : 400 < 500
unfolding expire_leases
expire_leases_clears_example =
    expire_leases_clears 400 world 21 lease_21 world-IsConsistent refl refl
