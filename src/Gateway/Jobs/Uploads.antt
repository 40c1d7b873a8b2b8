-- ===== src/Gateway/Jobs/Uploads.antt =====
-- An upload is recorded: of a task's artifact, or of a maintenance job's (`mark_artifact_uploaded` of
-- src/vgen/gateway/repository.py).
use text.Mathlib.Text.{◌==◌ as str_eq}
use vgen.Base.{
  none, some, true, false, ◌==◌, ◌&&◌, [], if◌then◌else◌, String, ℕ, Bool, Option, is_some, test,
  not,
}
use vgen.Gateway.Db.{ArtifactState, MaintenanceArtifact, Db, Job, JobState, Artifact}
use vgen.Table.{select_first, update_where, update_row}
use vgen.Gateway.Installs.{JobSpec, JobResult, CapabilityStatus, InstallStatus, UpdateStatus}
use vgen.Gateway.Tx.{Result, raise, artifact_not_found, ok, artifact_integrity_failed}
use vgen.Gateway.Jobs.Consumers.{is_awaiting_upload}

-- Identifiers of both tables are drawn from one supply.
abbrev pub is_transferable : ArtifactState → Bool
is_transferable ArtifactState.pending = true
is_transferable ArtifactState.uploaded = true
is_transferable _ = false

-- The reported digest, and as the artifact's row has it: "sha256:" + digest.
abbrev row_digest : (String → String) → Option String → Option String
row_digest prefixed none = none
row_digest prefixed (some digest) = some (prefixed digest)

unfoldable pub store_upload : (String → String) → ℕ → ℕ → Option String → ℕ → Db → Db
store_upload prefixed artifact_id size digest stamp db = record db {
  artifacts =
      update_where (λ k a. k == artifact_id && is_transferable a.state)
        (λ a. record a {
          state = ArtifactState.uploaded;
          encrypted_size = some size;
          content_digest = row_digest prefixed digest;
          updated_at = stamp;
        })
        db.artifacts;
}

-- The artifact of a maintenance job, under its job.
unfoldable pub maintenance_upload : ℕ → Db → Option (ℕ × MaintenanceArtifact)
unfolding select_first
maintenance_upload artifact_id db =
    select_first (λ _ _. false) (λ job_id a. a.id == artifact_id && is_some (db.jobs.row job_id))
      db.maintenance_artifacts

abbrev pub is_digest_of : MaintenanceArtifact → Option String → Bool
is_digest_of a none = true
is_digest_of a (some digest) = str_eq digest a.expected_sha256

-- ErrorCode.ARTIFACT_INTEGRITY_FAILED
abbrev integrity_failed_code : ℕ
integrity_failed_code = 330004

-- The result that a job fails with: the artifact's kind is its job's, and a model installation has
-- no artifact.
abbrev failure_result : JobSpec → JobResult
failure_result (JobSpec.capability_spec workflow_ref workflow_digest sha) =
    JobResult.capability_result CapabilityStatus.failed workflow_ref workflow_digest sha none
      (some integrity_failed_code)
failure_result (JobSpec.node_pack_spec node_pack_ref sha) =
    JobResult.node_pack_result InstallStatus.failed node_pack_ref sha none
      (some integrity_failed_code) none
failure_result (JobSpec.update_spec target_version sha) =
    JobResult.update_result UpdateStatus.failed target_version sha (some integrity_failed_code)
failure_result (JobSpec.model_spec digests) =
    JobResult.model_result InstallStatus.failed [] none (some integrity_failed_code)

abbrev pub failed_job : ℕ → Job → Job
failed_job stamp j = record j {
  state = JobState.failed;
  result = some (failure_result j.spec);
  completed_at = some stamp;
  updated_at = stamp;
}

abbrev set_observed :
    ArtifactState → ℕ → Option String → ℕ → MaintenanceArtifact → MaintenanceArtifact
set_observed state size digest stamp a = record a {
  state = state;
  observed_size = some size;
  observed_sha256 = digest;
  updated_at = stamp;
}

-- An upload that does not match ends a job that waits for it.
unfoldable pub store_mismatch : ℕ → ℕ → Option String → ℕ → Db → Db
store_mismatch job_id size digest stamp db = record db {
  maintenance_artifacts =
      update_row job_id (set_observed ArtifactState.failed size digest stamp)
        db.maintenance_artifacts;
  jobs = update_where (λ k j. k == job_id && is_awaiting_upload j.state) (failed_job stamp) db.jobs;
}

unfoldable pub store_match : ℕ → ℕ → Option String → ℕ → Db → Db
store_match job_id size digest stamp db = record db {
  maintenance_artifacts =
      update_where (λ k a. k == job_id && is_transferable a.state)
        (set_observed ArtifactState.uploaded size digest stamp) db.maintenance_artifacts;
}

unfoldable pub mark_maintenance :
    ℕ → Option String → ℕ → Option (ℕ × MaintenanceArtifact) → Db → Result ArtifactState × Db
unfolding store_mismatch store_match
mark_maintenance size digest stamp none db = (raise artifact_not_found, db)
mark_maintenance size digest stamp (some (job_id, a)) db =
    if not (is_transferable a.state)
    then (raise artifact_not_found, db)
    else if size == a.expected_size && is_digest_of a digest
    then (ok ArtifactState.uploaded, store_match job_id size digest stamp db)
    else (raise artifact_integrity_failed, store_mismatch job_id size digest stamp db)

-- The answer is the artifact's state. The error of a mismatch is raised behind the transaction that
-- records it, so that what it wrote stays.
unfoldable pub mark_artifact_uploaded :
    (String → String) → ℕ → ℕ → Option String → ℕ → Db → Result ArtifactState × Db
unfolding store_upload maintenance_upload mark_maintenance
mark_artifact_uploaded prefixed artifact_id size digest stamp db =
    if test (λ (a : Artifact). is_transferable a.state) (db.artifacts.row artifact_id)
    then (ok ArtifactState.uploaded, store_upload prefixed artifact_id size digest stamp db)
    else mark_maintenance size digest stamp (maintenance_upload artifact_id db) db
