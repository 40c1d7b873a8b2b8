-- ===== src/Tests/Reports.antt =====
-- Heartbeats and reports of the worker that runs attempt 21, and usage reports.
use vgen.Protocol.{AttemptState}
use vgen.Gateway.Heartbeat.{Heartbeat, Directive, heartbeat_attempt, execution, Execution}
use vgen.Gateway.Heartbeat.Fencing.{Refused, Renewed, heartbeat_without_lease, heartbeat_renews}
use vgen.Gateway.Finish.{Report, Verdict, check_report, finish_attempt}
use vgen.Gateway.Finish.Replay.{finish_twice}
use vgen.Gateway.Finish.Conflict.{SameAttempt, finish_conflict}
use vgen.Gateway.Receipts.{Finished}
use vgen.Gateway.Outcome.{
  Metric, Metrics, Value, get, execution_cancelled_code, canonical_attempt_outcome,
  validate_usage_metrics,
}
use vgen.Gateway.Outcome.Bounds.{
  Outcome, canonical_attempt_outcome_lem, IsWithin, validate_usage_metrics-IsWithin,
}
use vgen.Gateway.Finish.Artifacts.{finish_spares_artifacts}
use vgen.Tests.World.{no_rows, world, world-IsConsistent, task_11, attempt_21, lease_21}
use vgen.Base.{[], ◌∷◌, ◌≡◌, ◌≢◌, none, some, true, false, refl, arith, String, All}
use vgen.Gateway.Tx.{after, transaction, ok, raise, idempotency_conflict}
use vgen.Gateway.Db.{Responsibility, Db, Artifact, Direction, ArtifactState}
use vgen.Table.{insert}

abbrev beat_21 : Heartbeat
beat_21 = record {
  attempt_id = 21;
  worker_id = 1;
  fencing_token = 3;
  ttl = 60;
  started = true;
  progress = none;
}

abbrev stale_21 : Heartbeat
stale_21 = record beat_21 { fencing_token = 2 }

heartbeat_without_lease_example : Refused stale_21 100 world
heartbeat_without_lease_example = heartbeat_without_lease stale_21 100 world refl

abbrev going : Directive
going = record { cancelled = false; expires_at = 160 }

heartbeat_renews_example :
    Renewed beat_21 100 world going (after (heartbeat_attempt beat_21 100) world)
unfolding heartbeat_attempt transaction
heartbeat_renews_example =
    heartbeat_renews beat_21 100 world (after (heartbeat_attempt beat_21 100) world) going refl

abbrev hash_a : String
hash_a = "aaaaaaaaaaaaaaaaaaaaaaaaaaaaaaaaaaaaaaaaaaaaaaaaaaaaaaaaaaaaaaaa"

abbrev hash_b : String
hash_b = "bbbbbbbbbbbbbbbbbbbbbbbbbbbbbbbbbbbbbbbbbbbbbbbbbbbbbbbbbbbbbbbb"

abbrev report_21 : Report
report_21 = record {
  attempt_id = 21;
  worker_id = 1;
  fencing_token = 3;
  succeeded = true;
  outputs = [];
  metrics = (Metric.gpu_count, Value.int 1) ∷ [];
  failure_code = none;
  responsibility = Responsibility.unattributed;
  finish_semantic_hash = some hash_a;
}

abbrev finished_21 : Finished
finished_21 = record { attempt_id = 21; task_id = 11; state = AttemptState.succeeded }

abbrev finished_world : Db
finished_world = after (finish_attempt report_21 120) world

finish_twice_example :
    finish_attempt report_21 700 finished_world ≡ ok (finished_21, finished_world)
unfolding finish_attempt transaction
finish_twice_example =
    finish_twice report_21 hash_a 120 700 world finished_world finished_21 world-IsConsistent
      (omega arith) refl refl

abbrev other_21 : Report
other_21 = record report_21 { finish_semantic_hash = some hash_b }

abbrev execution_21 : Execution
execution_21 = record { lease = lease_21; attempt = attempt_21; task = task_11 }

abbrev verdict_21 : Verdict
verdict_21 = record {
  metrics = (Metric.gpu_count, 1) ∷ [];
  failure_code = none;
  responsibility = Responsibility.unattributed;
}

same_21 : SameAttempt report_21 other_21
same_21 = record { attempt_id = refl; worker_id = refl; fencing_token = refl }

finish_conflict_example : finish_attempt other_21 700 finished_world ≡ raise idempotency_conflict
unfolding finish_attempt transaction execution check_report
finish_conflict_example =
    finish_conflict report_21 other_21 hash_a hash_b execution_21 verdict_21 120 700 world
      finished_world finished_21 world-IsConsistent refl refl refl refl same_21 refl refl refl

canonical_attempt_outcome_lem_example :
    Outcome false
      (some execution_cancelled_code)
      Responsibility.consumer
      (some execution_cancelled_code, Responsibility.consumer)
unfolding canonical_attempt_outcome
canonical_attempt_outcome_lem_example =
    canonical_attempt_outcome_lem false (some execution_cancelled_code) Responsibility.consumer
      (some execution_cancelled_code, Responsibility.consumer) refl

abbrev usage : Metrics
usage = (Metric.frames, 81) ∷ []

validate_usage_metrics-IsWithin_example : All IsWithin usage × (get Metric.gpu_count usage ≢ some 0)
unfolding validate_usage_metrics
validate_usage_metrics-IsWithin_example =
    validate_usage_metrics-IsWithin
      ((Metric.native, Value.other) ∷ (Metric.frames, Value.int 81) ∷ []) usage refl

abbrev input_60 : Artifact
input_60 = record {
  task_id = 11;
  attempt_id = none;
  kind = "image";
  direction = Direction.input;
  store_type = "gateway";
  object_ref = "objects/60";
  content_digest = none;
  encrypted_size = some 10;
  media_metadata = [];
  state = ArtifactState.uploaded;
  created_at = 10;
  updated_at = 10;
}

abbrev artifact_world : Db
artifact_world = record world { artifacts = insert 60 input_60 no_rows }

finish_spares_artifacts_example :
    (after (finish_attempt report_21 120) artifact_world).artifacts.row 60 ≡ some input_60
unfolding finish_attempt transaction
finish_spares_artifacts_example =
    finish_spares_artifacts report_21 120 60 input_60 artifact_world
      (after (finish_attempt report_21 120) artifact_world) finished_21 refl refl refl
