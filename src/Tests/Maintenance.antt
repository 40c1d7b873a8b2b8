-- ===== src/Tests/Maintenance.antt =====
-- Maintenance jobs that are held, completed and claimed again, a worker that leaves, and a task that
-- is prepared for it.
use vgen.Gateway.Sweep.{task_expired}
use vgen.Gateway.Installs.{JobSpec, JobResult, InstallStatus}
use vgen.Gateway.Jobs.Requests.{run_jobs, Traced}
use vgen.Gateway.Jobs.Drivers.{
  JobRequest, heartbeat_maintenance, complete_maintenance, cancel_maintenance,
}
use vgen.Gateway.Workers.Departure.{Left, leave_worker_lem}
use vgen.Base.{
  [], ◌∷◌, none, some, true, false, refl, arith, ◌≡◌, List, ℕ, Option, Bool, String, length,
}
use vgen.Gateway.Tx.{ok, raise, transaction, after, maintenance_lease_lost}
use vgen.Gateway.Db.{JobState, Db, Worker, PrincipalType, Job, JobKind, WorkerStatus, Artifact}
use vgen.Gateway.Jobs.Authorizations.{Authority}
use vgen.Gateway.Jobs.Completion.{JobReport, complete_worker_maintenance, completed_job}
use vgen.Gateway.Jobs.Reports.{JobHeartbeat, ReportedState}
use vgen.Gateway.Prepare.{PrepareRequest, prepare_task, prepare_swept}
use vgen.Gateway.Safety.{IsConsistent}
use vgen.Gateway.Preflight.Agreement.{queue_expected_of, foretold_answer, preflight_foretells}
use vgen.Tests.World.{world, quiet_world, world-IsConsistent, no_rows, worker_1}
use vgen.Gateway.Jobs.Requests.{run_jobs, run_jobs_refines}
use vgen.Gateway.Jobs.Drivers.{
  JobRequest, heartbeat_maintenance, complete_maintenance, cancel_maintenance,
}
use vgen.Gateway.Jobs.{claim_worker_maintenance}
use vgen.Gateway.Workers.{leave_worker}
use vgen.Gateway.Safety.Sweeps.{IsConsistent-same}
use vgen.Gateway.Sweep.{task_expired}
use vgen.Table.{insert}
use vgen.Gateway.Preflight.{preflight_task}
use vgen.Gateway.Jobs.Replay.{complete_twice}
use vgen.Gateway.Jobs.Fencing.{stale_completion}
use vgen.Gateway.Artifacts.Counts.{IsDrawn, reserve_output_artifacts_lem}
use vgen.Gateway.Artifacts.{reserve_output_artifacts, new_output}

abbrev model_job : JobState → ℕ → Option ℕ → Job
model_job state token until = record {
  worker_id = 1;
  broker_id = 4;
  kind = JobKind.model_install;
  spec = JobSpec.model_spec [];
  spec_digest = "spec";
  state = state;
  progress = "{}";
  result = none;
  fencing_token = token;
  lease_session_id = some 70;
  lease_expires_at = until;
  heartbeat_at = some 40;
  expires_at = 900;
  created_at = 10;
  updated_at = 40;
  completed_at = none;
}

abbrev held_world : Db
held_world = record world { jobs = insert 60 (model_job JobState.running 2 (some 500)) no_rows }

abbrev trusting : Authority
trusting = record { intent_is_historically_valid = λ k j. true; bound_identifiers = λ s. none }

abbrev job_report : JobReport
job_report = record {
  job_id = 60;
  worker_id = 1;
  session_id = 70;
  fencing_token = 2;
  succeeded = true;
  result = JobResult.model_result InstallStatus.installed [] none none;
}

abbrev job_heartbeat : JobHeartbeat
job_heartbeat = record {
  job_id = 60;
  worker_id = 1;
  session_id = 70;
  fencing_token = 2;
  ttl_seconds = 60;
  state = ReportedState.running;
  progress = "{}";
  adopt_restart_session = false;
}

abbrev job_history : List (JobRequest × ℕ)
job_history =
    (heartbeat_maintenance job_heartbeat, 100)
    ∷ (complete_maintenance trusting job_report, 120)
    ∷ (cancel_maintenance 60 7, 130)
    ∷ []

run_jobs_refines_example :
    Traced job_history 60
      (model_job JobState.running 2 (some 500))
      ((run_jobs job_history held_world).jobs.row 60)
run_jobs_refines_example =
    run_jobs_refines job_history held_world 60 (model_job JobState.running 2 (some 500)) refl

abbrev completed_world : Db
completed_world = after (complete_worker_maintenance trusting job_report 120) held_world

complete_twice_example :
    complete_worker_maintenance trusting job_report 400 (run_jobs job_history completed_world)
    ≡ ok (
      completed_job job_report 120 (model_job JobState.running 2 (some 500)),
      run_jobs job_history completed_world,
    )
unfolding transaction complete_worker_maintenance
complete_twice_example =
    complete_twice trusting trusting job_report 120 400
      (completed_job job_report 120 (model_job JobState.running 2 (some 500))) held_world
      completed_world job_history refl

-- The job of a lapsed lease is claimed again, under the next token.
abbrev idle_world : Db
idle_world = record quiet_world {
  workers = insert 1 worker_1 no_rows;
  jobs = insert 60 (model_job JobState.running 2 (some 50)) no_rows;
}

abbrev claims : List (Option JobKind)
claims = some JobKind.model_install ∷ []

abbrev reclaimed_world : Db
reclaimed_world = after (claim_worker_maintenance 1 71 60 claims 100) idle_world

stale_completion_example :
    complete_worker_maintenance trusting job_report 130 (run_jobs job_history reclaimed_world)
    ≡ raise maintenance_lease_lost
unfolding transaction claim_worker_maintenance task_expired
stale_completion_example =
    stale_completion 1 71 60 100 130 claims
      (record { job_id = 60; fencing_token = 3; lease_expires_at = 160 }) idle_world reclaimed_world
      job_history refl trusting job_report refl (omega arith)

leave_worker_lem_example :
    Left 1 true true WorkerStatus.revoked (after (leave_worker 1 7 true 100) held_world)
unfolding transaction leave_worker
leave_worker_lem_example =
    leave_worker_lem 1 7 true 100 held_world (after (leave_worker 1 7 true 100) held_world)
      WorkerStatus.revoked refl

abbrev request : PrepareRequest
request = record {
  principal = record { principal_type = PrincipalType.device; principal_id = 9; user_id = some 8 };
  workspace_id = 5;
  pool_id = 6;
  workflow_ref = "workflow";
  workflow_digest = "digest";
  executor_type = "comfyui";
  public_requirements = "{}";
  priority = 1000;
  reservation_ttl_seconds = 120;
}

abbrev open_world : Db
open_world = record world {
  allocations =
      insert 50 (record { worker_id = 1; pool_id = 6; active = true; is_proven = true }) no_rows;
  rate_cards =
      insert 51
        (record {
          worker_id = 1;
          workspace_id = 5;
          approved = true;
          rate_microtokens_per_second = 7;
          decided_at = some 1;
        })
        no_rows;
}

abbrev any_worker : Db → ℕ → Worker → PrepareRequest → Bool
any_worker db k w q = true

open_world-IsConsistent : IsConsistent open_world
open_world-IsConsistent = IsConsistent-same world-IsConsistent refl refl refl refl refl

preflight_foretells_example :
    queue_expected_of (prepare_task any_worker request 100 open_world)
    ≡ foretold_answer (preflight_task any_worker request 100 (prepare_swept 100 open_world))
preflight_foretells_example =
    preflight_foretells any_worker request 100 open_world open_world-IsConsistent

-- Both attempts of the worker use its capacity, so that the task waits in its queue.
queued_answer : queue_expected_of (prepare_task any_worker request 100 open_world) ≡ ok true
unfolding prepare_task task_expired
queued_answer = refl

abbrev text_of : ℕ → String
text_of n = "art"

abbrev two_outputs : List (ℕ × Artifact)
two_outputs =
    (100, new_output 10 20 0 "local" "art" 100) ∷ (101, new_output 10 20 1 "local" "art" 100) ∷ []

world-IsDrawn : IsDrawn world
world-IsDrawn = record { undrawn = λ n e. refl }

reserve_output_artifacts_lem_example :
    (length two_outputs ≡ 2)
    × (reserve_output_artifacts text_of 10 20 2 "local" 300
          (after (reserve_output_artifacts text_of 10 20 2 "local" 100) world)
        ≡ ok (two_outputs, after (reserve_output_artifacts text_of 10 20 2 "local" 100) world))
unfolding transaction reserve_output_artifacts
reserve_output_artifacts_lem_example =
    reserve_output_artifacts_lem text_of 10 20 2 "local" 100 300 world
      (after (reserve_output_artifacts text_of 10 20 2 "local" 100) world) two_outputs world-IsDrawn
      refl
