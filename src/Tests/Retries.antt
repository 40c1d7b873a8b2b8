-- ===== src/Tests/Retries.antt =====
-- A retry of a failed task, a task that waits for a rekey, a worker that is served, and a maintenance job.
use vgen.Gateway.Rekey.{Reservation, prepare_retry}
use vgen.Gateway.Rekey.Replacement.{Reserved, prepare_retry_lem}
use vgen.Gateway.Leasing.{
  lease, active_count, has_maintenance, next_task, reserved_attempt, worker_envelope,
}
use vgen.Gateway.Leasing.Grants.{swept}
use vgen.Gateway.Leasing.Progress.{Ready, Served, lease_serves}
use vgen.Gateway.Sweep.{expire_reservations, task_expired, expire_leases}
use vgen.Gateway.Access.{Principal, require_task_consumer}
use vgen.Protocol.{TaskState, AttemptState}
use vgen.Gateway.Jobs.{Claim, claim_worker_maintenance}
use vgen.Gateway.Jobs.Exclusive.{claim_excludes_tasks}
use vgen.Table.Laws.{IsTable, IsTable-insert}
use vgen.Gateway.Leasing.{Grant}
use vgen.Tests.World.{
  quiet_world, stale_job, world, world-IsConsistent, worker_1, task_10, attempt_20, envelope_10,
  task_in_state, no_rows, attempt_of, no_rows-IsTable,
}
use vgen.Base.{◌+◌, none, some, true, refl, arith, Bool, [], ◌∷◌, ◌≢◌, ℕ, ◌≡◌}
use vgen.Gateway.Db.{Db, Worker, PrincipalType, Task, Job, JobKind, JobState, Attempt, BrokerDevice}
use vgen.Gateway.Tx.{after, transaction, ok}
use vgen.Table.{insert}
use vgen.Gateway.Safety.{IsConsistent}
use vgen.Gateway.Expiry.{Swept, sweep_expired}
use vgen.Gateway.Commands.{last_attempt}
use vgen.Gateway.Commands.Offers.{is_offered, sweep_expired-offers}

abbrev consumer : Principal
consumer = record { principal_type = PrincipalType.device; principal_id = 9; user_id = some 8 }

abbrev failed_21 : Attempt
failed_21 = attempt_of 11 AttemptState.failed 3 (some 20)

-- Task 11 failed on worker 1; worker 2 is offered to its pool.
abbrev failed_world : Db
failed_world = record world {
  workers = insert 2 worker_1 (insert 1 worker_1 no_rows);
  tasks = insert 11 (task_in_state TaskState.failed 1000 none) no_rows;
  attempts = insert 21 failed_21 no_rows;
  leases = no_rows;
  allocations =
      insert 50 (record { worker_id = 2; pool_id = 6; active = true; is_proven = true }) no_rows;
  rate_cards =
      insert 51
        (record {
          worker_id = 2;
          workspace_id = 5;
          approved = true;
          rate_microtokens_per_second = 7;
          decided_at = some 1;
        })
        no_rows;
}

failed_world-IsConsistent : IsConsistent failed_world
failed_world-IsConsistent = record {
  leases_table = no_rows-IsTable;
  attempts_table = IsTable-insert 21 failed_21 no_rows refl no_rows-IsTable;
  tasks_table =
      IsTable-insert 11 (task_in_state TaskState.failed 1000 none) no_rows refl no_rows-IsTable;
  tasks_agree = λ k. ground arith;
  leases_agree = λ k. ground arith;
  tokens_drawn = λ k. ground arith;
  leases_fenced = λ k. refl;
  live_unique = λ j k. ground arith;
  not_started = λ k. ground arith;
  workers_agree = λ k. ground arith;
  attempts_drawn = λ k. ground arith;
  tasks_drawn = λ k. ground arith;
  leases_drawn = λ k. refl;
  tokens_unique = λ j k. ground arith;
}

abbrev any_worker : Db → ℕ → Worker → Task → Bool
any_worker db k w t = true

abbrev reservation : Reservation
reservation = record {
  attempt_id = 100;
  worker_id = 2;
  fencing_token = 4;
  reservation_expires_at = 220;
}

prepare_retry_lem_example :
    Reserved any_worker 11 120 100
      (expire_reservations 100 failed_world)
      reservation
      (after (prepare_retry any_worker 11 consumer 120 100) failed_world)
unfolding prepare_retry transaction task_expired require_task_consumer
prepare_retry_lem_example =
    prepare_retry_lem any_worker 11 consumer 120 100 failed_world
      (after (prepare_retry any_worker 11 consumer 120 100) failed_world) reservation
      failed_world-IsConsistent refl

-- Task 11 waits for a rekey; its consumer has a broker device.
abbrev orphan : Task
orphan = task_in_state TaskState.rekey_required 1000 none

abbrev broker_device : BrokerDevice
broker_device = record {
  broker_id = 4;
  device_id = 9;
  owner_user_id = 8;
  linked = true;
  active = true;
  last_seen_at = some 90;
  created_at = 10;
}

abbrev orphan_world : Db
orphan_world = record failed_world {
  tasks = insert 11 orphan no_rows;
  broker_devices = insert 70 broker_device no_rows;
}

orphan_world-IsConsistent : IsConsistent orphan_world
orphan_world-IsConsistent = record {
  leases_table = no_rows-IsTable;
  attempts_table = IsTable-insert 21 failed_21 no_rows refl no_rows-IsTable;
  tasks_table = IsTable-insert 11 orphan no_rows refl no_rows-IsTable;
  tasks_agree = λ k. ground arith;
  leases_agree = λ k. ground arith;
  tokens_drawn = λ k. ground arith;
  leases_fenced = λ k. refl;
  live_unique = λ j k. ground arith;
  not_started = λ k. ground arith;
  workers_agree = λ k. ground arith;
  attempts_drawn = λ k. ground arith;
  tasks_drawn = λ k. ground arith;
  leases_drawn = λ k. refl;
  tokens_unique = λ j k. ground arith;
}

abbrev one_command : Swept
one_command = record {
  expired_leases = 0;
  expired_maintenance_jobs = 0;
  queued_broker_commands = 1;
}

sweep_expired-offers_example :
    is_offered 11 (some 21) (after (sweep_expired 100) orphan_world).commands ≡ true
unfolding sweep_expired transaction task_expired last_attempt
sweep_expired-offers_example =
    sweep_expired-offers 100 11 orphan_world (after (sweep_expired 100) orphan_world) one_command
      orphan_world-IsConsistent refl
      (record {
        task = orphan;
        user_id = 8;
        n = 70;
        device = broker_device;
        seen = 90;
        task_row = refl;
        waits = refl;
        free = refl;
        consumer = refl;
        device_row = refl;
        device_listed = refl;
        owned = refl;
        active = refl;
        last_seen = refl;
        fresh = omega arith;
      })

ready_1 : Ready 1 100 10 20 (swept 100 world)
unfolding expire_reservations expire_leases task_expired active_count has_maintenance next_task
    reserved_attempt worker_envelope
ready_1 = record {
  worker = worker_1;
  task = task_10;
  attempt = attempt_20;
  key = (40, envelope_10);
  worker_row = refl;
  active = refl;
  room = omega arith;
  undisturbed = refl;
  chosen = refl;
  reserved = refl;
  wrapped = refl;
}

lease_serves_example : Served 10 20 (ready_1.worker.fencing_counter + 1) (lease 1 60 100 world)
lease_serves_example = lease_serves 1 60 100 10 20 world world-IsConsistent ready_1

-- A worker without tasks, with a job that waits.
abbrev job_60 : Job
job_60 = record stale_job {
  state = JobState.queued;
  lease_session_id = none;
  lease_expires_at = none;
  heartbeat_at = none;
}

abbrev idle_world : Db
idle_world = record quiet_world {
  workers = insert 1 worker_1 no_rows;
  jobs = insert 60 job_60 no_rows;
}

idle_world-IsTable : IsTable idle_world.jobs
idle_world-IsTable =
    IsTable-insert 60 job_60 no_rows refl (record { listed = λ k. refl; distinct_keys = refl })

abbrev claim_60 : Claim
claim_60 = record { job_id = 60; fencing_token = 3; lease_expires_at = 160 }

abbrev claimed_world : Db
claimed_world =
    after (claim_worker_maintenance 1 70 60 (some JobKind.model_install ∷ []) 100) idle_world

abbrev some_grant : Grant
some_grant = record {
  lease_id = 101;
  attempt_id = 20;
  task_id = 10;
  fencing_token = 4;
  expires_at = 260;
  key_version = 1;
  encrypted_tdk_envelope = "wrapped";
}

claim_excludes_tasks_example : lease 1 60 200 claimed_world ≢ ok (some some_grant, claimed_world)
unfolding claim_worker_maintenance transaction task_expired
claim_excludes_tasks_example =
    claim_excludes_tasks 1 70 60 100 200 60 (some JobKind.model_install ∷ []) claim_60 some_grant
      idle_world claimed_world claimed_world idle_world-IsTable refl
