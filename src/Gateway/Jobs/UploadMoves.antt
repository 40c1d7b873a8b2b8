-- ===== src/Gateway/Jobs/UploadMoves.antt =====
-- A recorded upload moves the jobs along their machine (`mark_artifact_uploaded` of
-- src/vgen/gateway/repository.py).
use vgen.Base.{
  none, some, true, inl, inr, arith, ◌≡◌, ℕ, Option, ◌&&◌, test, Bool-cases, ◌==◌, String,
}
use vgen.Gateway.Jobs.Machine.{
  JobsMoved, JobsMoved-refl, JobsMoved-update_where, Moved, stay, move, JobStep, JobPath,
}
use vgen.Gateway.Db.{Db, Job, JobState, MaintenanceArtifact, Artifact}
use vgen.Gateway.Jobs.Consumers.{is_awaiting_upload}
use vgen.Gateway.Jobs.Uploads.{
  mark_artifact_uploaded, store_upload, failed_job, mark_maintenance, is_transferable,
  maintenance_upload, store_mismatch, store_match, is_digest_of,
}
use vgen.Gateway.Jobs.Drivers.{JobRequest, record_upload}

module _ (prefixed : String → String) (artifact_id bytes : ℕ) (sha : Option String) where
  abbrev uploading : JobRequest
  uploading = record_upload prefixed artifact_id bytes sha

  failed-Moved :
      (stamp k : ℕ) (j : Job)
      → is_awaiting_upload j.state ≡ true
      → Moved uploading k j (failed_job stamp j)
  failed-Moved stamp k j awaiting = record {
    path = from j.state awaiting;
    token = omega arith;
    settled = λ over. ground arith;
  }
    where
      from : (s : JobState) → is_awaiting_upload s ≡ true → JobPath uploading k s JobState.failed
      from JobState.awaiting_upload e = move JobStep.upload_failed stay
      from _ e = ground arith

  store_mismatch-moved :
      (job_id size : ℕ) (digest : Option String) (stamp : ℕ) (db : Db)
      → JobsMoved uploading db.jobs (store_mismatch job_id size digest stamp db).jobs
  unfolding store_mismatch
  store_mismatch-moved job_id size digest stamp db =
      JobsMoved-update_where uploading (λ k j. k == job_id && is_awaiting_upload j.state)
        (failed_job stamp) db.jobs λ k j row hit. failed-Moved stamp k j (ground arith)

  mark_maintenance-moved :
      (size : ℕ) (digest : Option String) (stamp : ℕ) (o : Option (ℕ × MaintenanceArtifact))
      (db : Db)
      → JobsMoved uploading db.jobs (mark_maintenance size digest stamp o db).1.jobs
  unfolding mark_maintenance store_match
  mark_maintenance-moved size digest stamp none db = JobsMoved-refl _ db.jobs
  mark_maintenance-moved size digest stamp (some (job_id, a)) db =
      elim (Bool-cases (is_transferable a.state)) [
        | inr shut ↦ rw shut (JobsMoved-refl _ db.jobs)
        | inl open_ ↦ elim (Bool-cases (size == a.expected_size && is_digest_of a digest)) [
          | inl same ↦ rw (open_, same) (JobsMoved-refl _ db.jobs)
          | inr other ↦ rw (open_, other) (store_mismatch-moved job_id size digest stamp db)
        ]
      ]

pub mark_artifact_uploaded-moved :
    (prefixed : String → String) (artifact_id size : ℕ) (digest : Option String) (stamp : ℕ)
    (db : Db)
    → JobsMoved
        (record_upload prefixed artifact_id size digest)
        db.jobs
        (mark_artifact_uploaded prefixed artifact_id size digest stamp db).1.jobs
unfolding mark_artifact_uploaded store_upload
mark_artifact_uploaded-moved prefixed artifact_id size digest stamp db =
    elim (Bool-cases
      (test (λ (a : Artifact). is_transferable a.state) (db.artifacts.row artifact_id))) [
        | inl there ↦ rw there (JobsMoved-refl _ db.jobs)
        | inr other ↦ rw other (
            mark_maintenance-moved prefixed artifact_id size digest size digest stamp
              (maintenance_upload artifact_id db) db)
      ]
