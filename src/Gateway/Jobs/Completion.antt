-- ===== src/Gateway/Jobs/Completion.antt =====
-- The completion of a maintenance job (`complete_worker_maintenance` of
-- src/vgen/gateway/repository.py). Audit events are left out.
use vgen.Gateway.Installs.{UpdateStatus}
use vgen.Base.{
  none, some, true, false, ◌==◌, ◌&&◌, ◌||◌, if◌then◌else◌, ℕ, Bool, Option, not, eq_null,
}
use vgen.Gateway.Tx.{
  ◌>>◌, Body, require, raise, maintenance_lease_lost, maintenance_state_conflict,
  maintenance_result_invalid,
}
use vgen.Gateway.Installs.{JobResult, matches_spec, same_result, same_flag}
use vgen.Gateway.Db.{Job, JobKind, ArtifactState, JobState, Db}
use vgen.Gateway.Jobs.Reports.{fenced_job, is_update, is_restarting, lease_unexpired}
use vgen.Gateway.Expiry.{is_held_job}
use vgen.Table.{update_where, update_row}
use vgen.Gateway.Jobs.{kind_index, ok}
use vgen.Gateway.Jobs.Authorizations.{record_maintenance_authorizations, Authority, is_capability}

pub record JobReport : Type 0 where
  pub job_id : ℕ
  pub worker_id : ℕ
  pub session_id : ℕ
  pub fencing_token : ℕ
  pub succeeded : Bool
  pub result : JobResult

abbrev pub result_kind : JobResult → JobKind
result_kind (JobResult.update_result _ _ _ _) = JobKind.worker_update
result_kind (JobResult.model_result _ _ _ _) = JobKind.model_install
result_kind (JobResult.capability_result _ _ _ _ _ _) = JobKind.capability_install
result_kind (JobResult.node_pack_result _ _ _ _ _ _) = JobKind.node_pack_install

abbrev is_rollback : JobResult → Bool
is_rollback (JobResult.update_result UpdateStatus.rolled_back _ _ _) = true
is_rollback _ = false

-- The restarted process may report the rollback of an update under a session of its own.
abbrev pub cross_session_rollback : JobReport → Job → Bool
cross_session_rollback r j =
    is_update j.kind && is_restarting j.state && not r.succeeded && is_rollback r.result

abbrev pub may_complete : JobReport → ℕ → Job → Bool
may_complete r stamp j =
    is_held_job j.state
    && lease_unexpired stamp j
    && (eq_null j.lease_session_id r.session_id || cross_session_rollback r j)

abbrev pub final_state : Bool → JobState
final_state true = JobState.succeeded
final_state false = JobState.failed

abbrev pub completed_job : JobReport → ℕ → Job → Job
completed_job r stamp j = record j {
  state = final_state r.succeeded;
  result = some r.result;
  completed_at = some stamp;
  updated_at = stamp;
  lease_expires_at = none;
}

-- The kinds of the tables that the completion of a job writes.
abbrev is_install : JobKind → Bool
is_install JobKind.worker_update = false
is_install _ = true

abbrev has_artifact : JobKind → Bool
has_artifact JobKind.model_install = false
has_artifact _ = true

abbrev pub authorizes : JobKind → Bool
authorizes JobKind.capability_install = true
authorizes JobKind.model_install = true
authorizes _ = false

-- COALESCE(capability_auth_enforced_at, stamp)
abbrev pub or_stamp : Option ℕ → ℕ → Option ℕ
or_stamp none stamp = some stamp
or_stamp (some t) stamp = some t

abbrev is_uploaded : ArtifactState → Bool
is_uploaded ArtifactState.uploaded = true
is_uploaded _ = false

-- What a success makes available, authorizes and enforces, by the kind of the job.
unfoldable pub store_success : Authority → JobReport → Job → ℕ → Db → Db
unfolding record_maintenance_authorizations
store_success auth r j stamp db =
    let published = record db {
      maintenance_artifacts =
          update_where (λ k a. k == r.job_id && has_artifact j.kind && is_uploaded a.state)
            (λ a. record a { state = ArtifactState.available; updated_at = stamp })
            db.maintenance_artifacts;
    } in
    let authorized =
      if authorizes j.kind
      then record_maintenance_authorizations r.job_id j (auth.bound_identifiers j.spec) stamp
          published
      else published in
    record authorized {
      workers =
          update_where (λ k _. k == r.worker_id && is_capability j.kind)
            (λ w. record w {
              capability_auth_enforced_at = or_stamp w.capability_auth_enforced_at stamp;
            })
            authorized.workers;
    }

unfoldable pub store_completion : Authority → JobReport → Job → ℕ → Db → Db
unfolding store_success
store_completion auth r j stamp db =
    let completed = record db { jobs = update_row r.job_id (completed_job r stamp) db.jobs } in
    if r.succeeded then store_success auth r j stamp completed else completed

abbrev pub is_completed : JobState → Bool
is_completed JobState.succeeded = true
is_completed JobState.failed = true
is_completed _ = false

abbrev pub is_succeeded : JobState → Bool
is_succeeded JobState.succeeded = true
is_succeeded _ = false

-- `stored_result == result`; a missing result is `{}`, which no report equals.
abbrev pub same_stored : Option JobResult → JobResult → Bool
same_stored none result = false
same_stored (some stored) result = same_result stored result

abbrev pub is_valid_result : Authority → JobReport → Job → Bool
is_valid_result auth r j =
    matches_spec j.spec r.result r.succeeded
    && (not (r.succeeded && is_install j.kind) || auth.intent_is_historically_valid r.job_id j)

abbrev complete_again : JobReport → Job → Body Job
complete_again r j db = do
  require (same_flag (is_succeeded j.state) r.succeeded && same_stored j.result r.result)
      maintenance_state_conflict
  ok (j, db)

abbrev complete_held : Authority → JobReport → ℕ → Job → Body Job
complete_held auth r stamp j db = do
  require (may_complete r stamp j) maintenance_lease_lost
  require (kind_index (result_kind r.result) == kind_index j.kind) maintenance_result_invalid
  require (is_valid_result auth r j) maintenance_result_invalid
  ok (completed_job r stamp j, store_completion auth r j stamp db)

unfoldable pub complete_job : Authority → JobReport → ℕ → Option Job → Body Job
unfolding matches_spec same_result store_completion
complete_job auth r stamp none db = raise maintenance_lease_lost
complete_job auth r stamp (some j) db =
    if is_completed j.state then complete_again r j db else complete_held auth r stamp j db

-- The answer is the job's row.
unfoldable pub complete_worker_maintenance : Authority → JobReport → ℕ → Body Job
unfolding fenced_job complete_job
complete_worker_maintenance auth r stamp db =
    complete_job auth r stamp (fenced_job r.job_id r.worker_id r.fencing_token db) db
